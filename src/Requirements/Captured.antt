-- ===== src/Requirements/Captured.antt =====
-- `CapturedValue` of packages/core/src/requirements-offering-quote.ts: what has been read of the
-- requirements, free of references. The two arrays inside are list types of their own.
use tool.Common.{Bool, true, false, [], ◌∷◌, ltb, ◌==◌, if◌then◌else◌}
use tool.Common.Text.{Text}
use tool.Js.{Number}

mutual
  pub data Captured : Type 0 where
    null : Captured
    boolean : Bool → Captured
    string : Text → Captured
    number : Number → Captured
    object : Properties → Captured
    array : Items → Captured

  pub data Properties : Type 0 where
    end : Properties
    property : Text → Captured → Properties → Properties

  pub data Items : Type 0 where
    nil : Items
    cons : Captured → Items → Items

-- `left < right` on strings compares code units.
unfoldable pub precedes : Text → Text → Bool
precedes [] [] = false
precedes [] (d ∷ t) = true
precedes (c ∷ s) [] = false
precedes (c ∷ s) (d ∷ t) = let later = precedes s t in if c == d then later else ltb c d

-- `properties.sort(compareKeys)`: the stable sort of the properties by key. A property goes before
-- the first one whose key does not precede its own.
unfoldable pub insert_property : Text → Captured → Properties → Properties
unfolding precedes
insert_property k v end = property k v end
insert_property k v (property j w ps) =
    if precedes j k then property j w (insert_property k v ps) else property k v (property j w ps)

unfoldable pub sort_properties : Properties → Properties
unfolding insert_property
sort_properties end = end
sort_properties (property k v ps) = insert_property k v (sort_properties ps)
