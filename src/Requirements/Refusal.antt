-- ===== src/Requirements/Refusal.antt =====
-- What the printing of a text in packages/core/src/requirements-offering-quote.ts (`emitJsonString`)
-- throws.
use tool.Common.{
  ℕ, ◌/◌, ◌%◌, ◌≤◌, ◌<◌, true, [], ◌∷◌, err, Error, ◌&&◌, ◌≡◌, arith, inl, inr, Result-cases,
  Bool-cases,
}
use tool.Common.Text.{Text}
use tool.Requirements.Keys.{is_high_surrogate, is_low_surrogate, over_limit}
use tool.Requirements.Emit.{
  Emitter, append_bounded, is_ascii, append_ascii, append_utf8, emit_unicode_escape, unicode_escape,
  hexadecimal_digit, emit_unit, emit_units, emit_json_string,
}

digit_small : (d : ℕ) → d < 16 → hexadecimal_digit d ≤ 0x7f
digit_small d h = ground arith

pub unicode_escape-is_ascii : (c : ℕ) → is_ascii (unicode_escape c) ≡ true
unfolding is_ascii
unicode_escape-is_ascii c = ground (
  arith,
  digit_small (c / 4096 % 16),
  digit_small (c / 256 % 16),
  digit_small (c / 16 % 16),
  digit_small (c % 16),
)

append_ascii-over_limit :
    (e : Emitter) (x : Error) (value : Text)
    → is_ascii value ≡ true
    → append_ascii e value ≡ err x
    → x ≡ over_limit
unfolding append_ascii append_bounded
append_ascii-over_limit e x value a h = ground arith

append_utf8-over_limit :
    (e : Emitter) (x : Error) (value : Text) (n : ℕ)
    → append_utf8 e value n ≡ err x
    → x ≡ over_limit
unfolding append_utf8 append_bounded
append_utf8-over_limit e x value n h = ground arith

escape-over_limit :
    (e : Emitter) (x : Error) (d : ℕ)
    → append_ascii e (b'\\' ∷ d ∷ []) ≡ err x
    → d ≤ 0x7f
    → x ≡ over_limit
unfolding is_ascii
escape-over_limit e x d h small = append_ascii-over_limit e x (b'\\' ∷ d ∷ []) (ground arith) h

unit-over_limit :
    (e : Emitter) (x : Error) (c : ℕ) → append_ascii e (c ∷ []) ≡ err x → c ≤ 0x7f → x ≡ over_limit
unfolding is_ascii
unit-over_limit e x c h small = append_ascii-over_limit e x (c ∷ []) (ground arith) h

emit_unicode_escape-over_limit :
    (e : Emitter) (x : Error) (c : ℕ) → emit_unicode_escape e c ≡ err x → x ≡ over_limit
unfolding emit_unicode_escape
emit_unicode_escape-over_limit e x c h =
    append_ascii-over_limit e x (unicode_escape c) (unicode_escape-is_ascii c) h

emit_unit-over_limit : (e : Emitter) (x : Error) (c : ℕ) → emit_unit e c ≡ err x → x ≡ over_limit
unfolding emit_unit
emit_unit-over_limit e x c h = ground (
  arith,
  escape-over_limit e x 0x22,
  escape-over_limit e x 0x5c,
  escape-over_limit e x b'b',
  escape-over_limit e x b'f',
  escape-over_limit e x b'n',
  escape-over_limit e x b'r',
  escape-over_limit e x b't',
  emit_unicode_escape-over_limit e x c,
  unit-over_limit e x c,
  append_utf8-over_limit e x (c ∷ []) 2,
  append_utf8-over_limit e x (c ∷ []) 3,
)

emit_units-over_limit :
    (e : Emitter) (x : Error) (s : Text) → emit_units e s ≡ err x → x ≡ over_limit
unfolding emit_units
emit_units-over_limit e x [] h = absurd (ground arith)
emit_units-over_limit e x (c ∷ []) h = emit_unit-over_limit e x c h
emit_units-over_limit e x (c ∷ d ∷ s) h =
    elim (Bool-cases (is_high_surrogate c && is_low_surrogate d)) [
      | inl b ↦ elim (Result-cases (append_utf8 e (c ∷ d ∷ []) 4)) [
        | inr (y, f) ↦ ground (arith, append_utf8-over_limit e y (c ∷ d ∷ []) 4 f)
        | inl (e1, f) ↦ ground (arith, emit_units-over_limit e1 x s)
      ]
      | inr b ↦ elim (Result-cases (emit_unit e c)) [
        | inr (y, f) ↦ ground (arith, emit_unit-over_limit e y c f)
        | inl (e1, f) ↦ ground (arith, emit_units-over_limit e1 x (d ∷ s))
      ]
    ]

-- The printing of a text throws nothing but that the limit is exceeded.
pub emit_json_string-over_limit :
    (e : Emitter) (x : Error) (key : Text) → emit_json_string e key ≡ err x → x ≡ over_limit
unfolding emit_json_string
emit_json_string-over_limit e x key h = elim (Result-cases (append_ascii e (0x22 ∷ []))) [
  | inr (y, f) ↦ ground (arith, unit-over_limit e y 0x22 f)
  | inl (e1, f) ↦ elim (Result-cases (emit_units e1 key)) [
    | inr (y, g) ↦ ground (arith, emit_units-over_limit e1 y key g)
    | inl (e2, g) ↦ ground (arith, unit-over_limit e2 x 0x22)
  ]
]
