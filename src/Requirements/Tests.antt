-- ===== src/Requirements/Tests.antt =====
-- A key with a quote and a character of three bytes.
use tool.Common.{ok, err, none, true, ◌+◌, ◌≤◌, ◌<◌, [], ◌∷◌, ◌≡◌, ◌≢◌, ◌↔◌, refl, ap, arith, ℕ}
use tool.Common.Int.{pos}
use tool.Common.Text.{Text, codes}
use tool.Js.{Number, integral}
use tool.Requirements.{Host, canonicalize_captured}
use tool.Requirements.Captured.{Properties, property, end, object, number, string, sort_properties}
use tool.Requirements.Keys.{max_canonical_bytes, preflight_canonical_key, over_limit}
use tool.Requirements.Emit.{Emitter, new_emitter, emit_json_string, is_ascii}
use tool.Requirements.Bytes.{emit_json_string-preflight}
use tool.Requirements.Utf8.{size}
use tool.Requirements.Print.{print}
use tool.Requirements.Canonical.{canonicalize_captured_iff}
use tool.Requirements.KeyOrder.{swap, Distinct, Ascending, sort_properties-Reordered}

abbrev key : Text
key = 0x61 ∷ 0x22 ∷ 0x20ac ∷ []

key_bytes : preflight_canonical_key key ≡ ok 8
unfolding preflight_canonical_key
key_bytes = refl

emit_json_string-preflight_example :
    ((0 + 8 ≤ max_canonical_bytes)
      → (e' : Emitter) × (emit_json_string new_emitter key ≡ ok e') × (e'.byte_length ≡ 0 + 8))
    × ((max_canonical_bytes < 0 + 8) → emit_json_string new_emitter key ≡ err over_limit)
emit_json_string-preflight_example = emit_json_string-preflight new_emitter key 8 key_bytes

-- `{"b":0,"a":"x"}`, and a host that prints every number as 0.
abbrev tied : Host
tied = record { number_text = λ n. codes "0"; sha256 = none }

is_plain : (n : Number) → is_ascii (tied.number_text n) ≡ true
unfolding is_ascii
is_plain n = refl

abbrev b_then_a : Properties
b_then_a =
    property (codes "b") (number (integral (pos 0))) (property (codes "a") (string (codes "x")) end)

abbrev a_then_b : Properties
a_then_b =
    property (codes "a") (string (codes "x")) (property (codes "b") (number (integral (pos 0))) end)

canonicalize_captured_iff_example :
    ((t : Text)
      → (canonicalize_captured tied (object a_then_b) ≡ ok t) ↔ (
          (t ≡ print tied.number_text (object a_then_b))
          × (size (print tied.number_text (object a_then_b)) ≤ max_canonical_bytes)))
    × (max_canonical_bytes < size (print tied.number_text (object a_then_b))
        → canonicalize_captured tied (object a_then_b) ≡ err over_limit)
canonicalize_captured_iff_example = canonicalize_captured_iff tied is_plain (object a_then_b)

first_unit : Text → ℕ
first_unit [] = 0
first_unit (c ∷ s) = c

b_not_a : codes "b" ≢ codes "a"
unfolding first_unit
b_not_a same = omega (arith, ap first_unit same)

b_then_a-Distinct : Distinct b_then_a
b_then_a-Distinct = ((b_not_a, tt), (tt, tt))

sort_properties-Reordered_example :
    Ascending (sort_properties b_then_a)
    × (sort_properties b_then_a ≡ sort_properties a_then_b)
    × (print tied.number_text (object (sort_properties b_then_a))
        ≡ print tied.number_text (object (sort_properties a_then_b)))
sort_properties-Reordered_example =
    sort_properties-Reordered tied.number_text b_then_a a_then_b b_then_a-Distinct
      (swap (codes "b") (codes "a") (number (integral (pos 0))) (string (codes "x")) end b_not_a)
