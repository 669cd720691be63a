-- ===== src/Requirements/Print.antt =====
-- The canonical text of captured requirements as one plain recursion, without chunks, counts or
-- limits: what packages/core/src/requirements-offering-quote.ts prints where it prints.
use tool.Common.{ℕ, Bool, true, false, ◌&&◌, ◌||◌, [], ◌∷◌, ◌++◌, ltb, ◌==◌, if◌then◌else◌}
use tool.Common.Text.{Text, codes}
use tool.Js.{Number}
use tool.Requirements.Captured.{Captured, Properties, Items, end, property, nil, cons}
use tool.Requirements.Keys.{is_high_surrogate, is_low_surrogate}
use tool.Requirements.Emit.{unicode_escape}

-- A code unit outside a surrogate pair, in a JSON string.
unfoldable pub unit_text : ℕ → Text
unit_text c =
    if c == 0x22
    then b'\\' ∷ 0x22 ∷ []
    else if c == 0x5c
    then b'\\' ∷ 0x5c ∷ []
    else if c == 0x08
    then b'\\' ∷ b'b' ∷ []
    else if c == 0x0c
    then b'\\' ∷ b'f' ∷ []
    else if c == 0x0a
    then b'\\' ∷ b'n' ∷ []
    else if c == 0x0d
    then b'\\' ∷ b'r' ∷ []
    else if c == 0x09
    then b'\\' ∷ b't' ∷ []
    else if ltb c 0x20
    then unicode_escape c
    else if is_high_surrogate c || is_low_surrogate c
    then unicode_escape c
    else c ∷ []

unfoldable pub units_text : Text → Text
units_text [] = []
units_text (c ∷ []) = unit_text c
units_text (c ∷ d ∷ s) =
    let pair = c ∷ d ∷ units_text s in
    let single = unit_text c ++ units_text (d ∷ s) in
    if is_high_surrogate c && is_low_surrogate d then pair else single

unfoldable pub quoted : Text → Text
quoted s = (0x22 ∷ []) ++ (units_text s ++ (0x22 ∷ []))

unfoldable pub separator : Bool → Text
separator true = b',' ∷ []
separator false = []

module _ (number_text : Number → Text) where
  unfoldable mutual
    pub print : Captured → Text
    print Captured.null = codes "null"
    print (Captured.boolean true) = codes "true"
    print (Captured.boolean false) = codes "false"
    print (Captured.string s) = quoted s
    print (Captured.number n) = number_text n
    print (Captured.object ps) = (b'{' ∷ []) ++ (print_properties ps false ++ (b'}' ∷ []))
    print (Captured.array vs) = (b'[' ∷ []) ++ (print_items vs false ++ (b']' ∷ []))

    pub print_properties : Properties → Bool → Text
    print_properties end later = []
    print_properties (property k v ps) later =
        separator later ++ (quoted k ++ ((b':' ∷ []) ++ (print v ++ print_properties ps true)))

    pub print_items : Items → Bool → Text
    print_items nil later = []
    print_items (cons v vs) later = separator later ++ (print v ++ print_items vs true)
