-- ===== src/Requirements/KeyOrder.antt =====
-- The order of the keys: `compareKeys` and the sort of the properties in
-- packages/core/src/requirements-offering-quote.ts.
use tool.Common.{true, false, [], ◌∷◌, ◌≡◌, ◌≢◌, refl, arith, inl, inr, Bool-cases, ap, ◌∙◌}
use tool.Common.Text.{Text}
use tool.Js.{Number}
use tool.Requirements.Print.{print}
use tool.Requirements.Captured.{
  Captured, object, Properties, end, property, precedes, insert_property, sort_properties,
}

precedes-asym : (s t : Text) → precedes s t ≡ true → precedes t s ≡ false
unfolding precedes
precedes-asym [] [] h = refl
precedes-asym [] (d ∷ t) h = refl
precedes-asym (c ∷ s) [] h = absurd (ground arith)
precedes-asym (c ∷ s) (d ∷ t) h = ground (arith, precedes-asym s t)

precedes_trans : (s t u : Text) → precedes s t ≡ true → precedes t u ≡ true → precedes s u ≡ true
unfolding precedes
precedes_trans [] [] u h k = absurd (ground arith)
precedes_trans [] (d ∷ t) [] h k = absurd (ground arith)
precedes_trans [] (d ∷ t) (f ∷ u) h k = refl
precedes_trans (c ∷ s) [] u h k = absurd (ground arith)
precedes_trans (c ∷ s) (d ∷ t) [] h k = absurd (ground arith)
precedes_trans (c ∷ s) (d ∷ t) (f ∷ u) h k = ground (arith, precedes_trans s t u)

precedes_total : (s t : Text) → precedes s t ≡ false → precedes t s ≡ false → s ≡ t
unfolding precedes
precedes_total [] [] h k = refl
precedes_total [] (d ∷ t) h k = absurd (ground arith)
precedes_total (c ∷ s) [] h k = absurd (ground arith)
precedes_total (c ∷ s) (d ∷ t) h k = ground (arith, precedes_total s t)

-- The properties of one object, read in another order of its keys, which are distinct.
pub data Reordered : Properties → Properties → Type 0 where
  same : (ps : Properties) → Reordered ps ps
  keep :
      (k : Text) (v : Captured) {ps qs : Properties}
      → Reordered ps qs
      → Reordered (property k v ps) (property k v qs)
  swap :
      (k j : Text) (v w : Captured) (ps : Properties)
      → k ≢ j
      → Reordered (property k v (property j w ps)) (property j w (property k v ps))
  trans : {ps qs rs : Properties} → Reordered ps qs → Reordered qs rs → Reordered ps rs

insert_swap :
    (k j : Text) (v w : Captured) (ps : Properties)
    → k ≢ j
    → insert_property k v (insert_property j w ps) ≡ insert_property j w (insert_property k v ps)
unfolding insert_property
insert_swap k j v w end d = ground (arith, precedes-asym k j, precedes-asym j k, precedes_total k j)
insert_swap k j v w (property a x ps) d = ground (
  arith,
  precedes-asym k j,
  precedes-asym j k,
  precedes_total k j,
  precedes_trans a k j,
  precedes_trans a j k,
  insert_swap k j v w ps d,
)

sort_same : (ps qs : Properties) → Reordered ps qs → sort_properties ps ≡ sort_properties qs
unfolding sort_properties
sort_same ps _ (same _) = refl
sort_same _ _ (keep k v {ps} {qs} r) = ap (insert_property k v) (sort_same ps qs r)
sort_same _ _ (swap k j v w ps d) = insert_swap k j v w (sort_properties ps) d
sort_same ps rs (trans {qs = qs} r q) = sort_same ps qs r ∙ sort_same qs rs q

abbrev pub Fresh : Text → Properties → Type 0
Fresh k end = Unit {0}
Fresh k (property j w ps) = (k ≢ j) × Fresh k ps

-- No key stands twice.
abbrev pub Distinct : Properties → Type 0
Distinct end = Unit {0}
Distinct (property k v ps) = Fresh k ps × Distinct ps

-- Each key precedes the next.
abbrev pub Ascending : Properties → Type 0
Ascending end = Unit {0}
Ascending (property k v end) = Unit {0}
Ascending (property k v (property j w ps)) = (precedes k j ≡ true) × Ascending (property j w ps)

insert-Fresh :
    (k j : Text) (w : Captured) (ps : Properties)
    → k ≢ j
    → Fresh k ps
    → Fresh k (insert_property j w ps)
unfolding insert_property
insert-Fresh k j w end d f = (d, tt)
insert-Fresh k j w (property a x ps) d f = elim (Bool-cases (precedes a j)) [
  | inl h ↦ rw (h) (f.0, insert-Fresh k j w ps d f.1)
  | inr h ↦ rw (h) (d, f)
]

sort-Fresh : (k : Text) (ps : Properties) → Fresh k ps → Fresh k (sort_properties ps)
unfolding sort_properties
sort-Fresh k end f = tt
sort-Fresh k (property j w ps) f = insert-Fresh k j w (sort_properties ps) f.0 (sort-Fresh k ps f.1)

insert-Ascending :
    (k : Text) (v : Captured) (ps : Properties)
    → Fresh k ps
    → Ascending ps
    → Ascending (insert_property k v ps)
unfolding insert_property
insert-Ascending k v end f h = tt
insert-Ascending k v (property j w end) f h = ground (arith, precedes_total k j, precedes_total j k)
insert-Ascending k v (property j w (property a x ps)) f h = ground (
  arith,
  precedes_total k j,
  precedes_total j k,
  insert-Ascending k v (property a x ps) (f.1) (h.1),
)

sort-Ascending : (ps : Properties) → Distinct ps → Ascending (sort_properties ps)
unfolding sort_properties
sort-Ascending end d = tt
sort-Ascending (property k v ps) d =
    insert-Ascending k v (sort_properties ps) (sort-Fresh k ps d.0) (sort-Ascending ps d.1)

-- The properties of an object, whose keys are distinct, are sorted into ascending order, and in
-- whatever order its keys are read the sorted properties are the same, and so is the plain text of
-- the object.
pub sort_properties-Reordered :
    (number_text : Number → Text) (ps qs : Properties)
    → Distinct ps
    → Reordered ps qs
    → Ascending (sort_properties ps)
      × (sort_properties ps ≡ sort_properties qs)
      × (print number_text (object (sort_properties ps))
          ≡ print number_text (object (sort_properties qs)))
sort_properties-Reordered number_text ps qs d r = (
  sort-Ascending ps d,
  sort_same ps qs r,
  ap (λ x. print number_text (object x)) (sort_same ps qs r),
)
