-- ===== src/Requirements/Bytes.antt =====
-- The byte counts of a key: what the reading of the requirements foresees
-- (`preflightCanonicalKey`) is what the printing counts (`emitJsonString`), in
-- packages/core/src/requirements-offering-quote.ts.
use tool.Common.{
  ℕ, ◌+◌, ◌≤◌, [], ◌∷◌, ok, err, Error, ◌<◌, ◌≡◌, arith, inl, inr, Result-cases, Bool-cases, length,
  ◌&&◌, ap, ◌∙◌,
}
use tool.Common.Text.{Text}
use tool.Requirements.Keys.{
  max_canonical_bytes, unit_byte_length, preflight_from, preflight_canonical_key, is_high_surrogate,
  is_low_surrogate, over_limit,
}
use tool.Requirements.Refusal.{unicode_escape-is_ascii, emit_json_string-over_limit}
use tool.Requirements.Emit.{
  Emitter, append_bounded, is_ascii, append_ascii, append_utf8, emit_unicode_escape, unicode_escape,
  emit_unit, emit_units, emit_json_string,
}

-- An emitter within the limit, with `n` bytes more than another one.
pub record IsGrown (e e' : Emitter) (n : ℕ) : Type 0 where
  pub grown : e'.byte_length ≡ e.byte_length + n
  pub bounded : e'.byte_length ≤ max_canonical_bytes

append_bounded-IsGrown :
    (e e' : Emitter) (value : Text) (n : ℕ) → append_bounded e value n ≡ ok e' → IsGrown e e' n
unfolding append_bounded
append_bounded-IsGrown e e' value n h = ground arith

append_ascii-IsGrown :
    (e e' : Emitter) (value : Text) → append_ascii e value ≡ ok e' → IsGrown e e' (length value)
unfolding append_ascii
append_ascii-IsGrown e e' value h = elim (Bool-cases (is_ascii value)) [
  | inl a ↦ append_bounded-IsGrown e e' value (length value) (ground arith)
  | inr a ↦ absurd (ground arith)
]

escape-IsGrown : (e e' : Emitter) (d : ℕ) → append_ascii e (b'\\' ∷ d ∷ []) ≡ ok e' → IsGrown e e' 2
escape-IsGrown e e' d h = append_ascii-IsGrown e e' (b'\\' ∷ d ∷ []) h

emit_unit-IsGrown :
    (e e' : Emitter) (c : ℕ) → emit_unit e c ≡ ok e' → IsGrown e e' (unit_byte_length c)
unfolding emit_unit unit_byte_length emit_unicode_escape append_utf8
emit_unit-IsGrown e e' c h = ground (
  arith,
  escape-IsGrown e e' 0x22,
  escape-IsGrown e e' 0x5c,
  escape-IsGrown e e' b'b',
  escape-IsGrown e e' b'f',
  escape-IsGrown e e' b'n',
  escape-IsGrown e e' b'r',
  escape-IsGrown e e' b't',
  append_ascii-IsGrown e e' (unicode_escape c),
  append_ascii-IsGrown e e' (c ∷ []),
  append_bounded-IsGrown e e' (c ∷ []) 2,
  append_bounded-IsGrown e e' (c ∷ []) 3,
)

pair-IsGrown : (e e' : Emitter) (c d : ℕ) → append_utf8 e (c ∷ d ∷ []) 4 ≡ ok e' → IsGrown e e' 4
unfolding append_utf8
pair-IsGrown e e' c d h = append_bounded-IsGrown e e' (c ∷ d ∷ []) 4 h

-- The printing of the units grows by what the reading has counted, from any count that is reached.
emit_units-IsGrown :
    (e e' : Emitter) (s : Text) (total n : ℕ)
    → emit_units e s ≡ ok e'
    → preflight_from total s ≡ ok n
    → e'.byte_length + total ≡ e.byte_length + n
unfolding emit_units preflight_from
emit_units-IsGrown e e' [] total n h k = ground arith
emit_units-IsGrown e e' (c ∷ []) total n h k = ground (arith, emit_unit-IsGrown e e' c h)
emit_units-IsGrown e e' (c ∷ d ∷ s) total n h k =
    elim (Bool-cases (is_high_surrogate c && is_low_surrogate d)) [
      | inl b ↦ elim (Result-cases (append_utf8 e (c ∷ d ∷ []) 4)) [
        | inr (x, f) ↦ absurd (ground arith)
        | inl (e1, f) ↦
            ground (arith, pair-IsGrown e e1 c d f, emit_units-IsGrown e1 e' s (total + 4) n)
      ]
      | inr b ↦ elim (Result-cases (emit_unit e c)) [
        | inr (x, f) ↦ absurd (ground arith)
        | inl (e1, f) ↦ ground (
          arith,
          emit_unit-IsGrown e e1 c f,
          emit_units-IsGrown e1 e' (d ∷ s) (total + unit_byte_length c) n,
        )
      ]
    ]

preflight_from-le : (total n : ℕ) (s : Text) → preflight_from total s ≡ ok n → total ≤ n
unfolding preflight_from
preflight_from-le total n [] h = ground arith
preflight_from-le total n (c ∷ []) h = ground arith
preflight_from-le total n (c ∷ d ∷ s) h =
    elim (Bool-cases (is_high_surrogate c && is_low_surrogate d)) [
      | inl b ↦ ground (arith, preflight_from-le (total + 4) n s)
      | inr b ↦ ground (arith, preflight_from-le (total + unit_byte_length c) n (d ∷ s))
    ]

append_ascii-exceeds :
    (e : Emitter) (x : Error) (c : ℕ)
    → append_ascii e (c ∷ []) ≡ err x
    → c ≤ 0x7f
    → max_canonical_bytes < e.byte_length + 1
unfolding append_ascii is_ascii append_bounded
append_ascii-exceeds e x c h small = ground arith

append_utf8-exceeds :
    (e : Emitter) (x : Error) (value : Text) (n : ℕ)
    → append_utf8 e value n ≡ err x
    → max_canonical_bytes < e.byte_length + n
unfolding append_utf8 append_bounded
append_utf8-exceeds e x value n h = ground arith

escape-exceeds :
    (e : Emitter) (x : Error) (d : ℕ)
    → append_ascii e (b'\\' ∷ d ∷ []) ≡ err x
    → d ≤ 0x7f
    → max_canonical_bytes < e.byte_length + 2
unfolding append_ascii is_ascii append_bounded
escape-exceeds e x d h small = ground arith

emit_unicode_escape-exceeds :
    (e : Emitter) (x : Error) (c : ℕ)
    → emit_unicode_escape e c ≡ err x
    → max_canonical_bytes < e.byte_length + 6
unfolding emit_unicode_escape append_ascii append_bounded
emit_unicode_escape-exceeds e x c h = ground (arith, unicode_escape-is_ascii c)

emit_unit-exceeds :
    (e : Emitter) (x : Error) (c : ℕ)
    → emit_unit e c ≡ err x
    → max_canonical_bytes < e.byte_length + unit_byte_length c
unfolding emit_unit unit_byte_length
emit_unit-exceeds e x c h = ground (
  arith,
  escape-exceeds e x 0x22,
  escape-exceeds e x 0x5c,
  escape-exceeds e x b'b',
  escape-exceeds e x b'f',
  escape-exceeds e x b'n',
  escape-exceeds e x b'r',
  escape-exceeds e x b't',
  emit_unicode_escape-exceeds e x c,
  append_ascii-exceeds e x c,
  append_utf8-exceeds e x (c ∷ []) 2,
  append_utf8-exceeds e x (c ∷ []) 3,
)

emit_units-exceeds :
    (e : Emitter) (x : Error) (s : Text) (total n : ℕ)
    → emit_units e s ≡ err x
    → preflight_from total s ≡ ok n
    → max_canonical_bytes + total < e.byte_length + n
unfolding emit_units preflight_from
emit_units-exceeds e x [] total n h k = absurd (ground arith)
emit_units-exceeds e x (c ∷ []) total n h k = ground (arith, emit_unit-exceeds e x c h)
emit_units-exceeds e x (c ∷ d ∷ s) total n h k =
    elim (Bool-cases (is_high_surrogate c && is_low_surrogate d)) [
      | inl b ↦ elim (Result-cases (append_utf8 e (c ∷ d ∷ []) 4)) [
        | inr (y, f) ↦
            ground
              (arith, append_utf8-exceeds e y (c ∷ d ∷ []) 4 f, preflight_from-le (total + 4) n s)
        | inl (e1, f) ↦
            ground (arith, pair-IsGrown e e1 c d f, emit_units-exceeds e1 x s (total + 4) n)
      ]
      | inr b ↦ elim (Result-cases (emit_unit e c)) [
        | inr (y, f) ↦ ground (
          arith,
          emit_unit-exceeds e y c f,
          preflight_from-le (total + unit_byte_length c) n (d ∷ s),
        )
        | inl (e1, f) ↦ ground (
          arith,
          emit_unit-IsGrown e e1 c f,
          emit_units-exceeds e1 x (d ∷ s) (total + unit_byte_length c) n,
        )
      ]
    ]

emit_json_string-exceeds :
    (e : Emitter) (x : Error) (key : Text) (n : ℕ)
    → preflight_canonical_key key ≡ ok n
    → emit_json_string e key ≡ err x
    → max_canonical_bytes < e.byte_length + n
unfolding emit_json_string preflight_canonical_key
emit_json_string-exceeds e x key n h k = elim (Result-cases (append_ascii e (0x22 ∷ []))) [
  | inr (y, f) ↦ ground (arith, append_ascii-exceeds e y 0x22 f, preflight_from-le 2 n key)
  | inl (e1, f) ↦ elim (Result-cases (emit_units e1 key)) [
    | inr (y, g) ↦
        ground (arith, append_ascii-IsGrown e e1 (0x22 ∷ []) f, emit_units-exceeds e1 y key 2 n g)
    | inl (e2, g) ↦ ground (
      arith,
      append_ascii-IsGrown e e1 (0x22 ∷ []) f,
      append_ascii-exceeds e2 x 0x22,
      emit_units-IsGrown e1 e2 key 2 n g,
    )
  ]
]

emit_json_string-IsGrown :
    (e e' : Emitter) (key : Text) (n : ℕ)
    → preflight_canonical_key key ≡ ok n
    → emit_json_string e key ≡ ok e'
    → IsGrown e e' n
unfolding emit_json_string preflight_canonical_key
emit_json_string-IsGrown e e' key n h k = elim (Result-cases (append_ascii e (0x22 ∷ []))) [
  | inr (x, f) ↦ absurd (ground arith)
  | inl (e1, f) ↦ elim (Result-cases (emit_units e1 key)) [
    | inr (x, g) ↦ absurd (ground arith)
    | inl (e2, g) ↦ ground (
      arith,
      append_ascii-IsGrown e e1 (0x22 ∷ []) f,
      append_ascii-IsGrown e2 e' (0x22 ∷ []),
      emit_units-IsGrown e1 e2 key 2 n g,
    )
  ]
]

-- A key that the reading accepts for `n` bytes, its quotes included: where `n` more bytes are within
-- the limit of 32768, it is printed and exactly `n` more bytes are counted; where they are not, the
-- printing throws that the limit is exceeded.
pub emit_json_string-preflight :
    (e : Emitter) (key : Text) (n : ℕ)
    → preflight_canonical_key key ≡ ok n
    → ((e.byte_length + n ≤ max_canonical_bytes)
        → (e' : Emitter) × (emit_json_string e key ≡ ok e') × (e'.byte_length ≡ e.byte_length + n))
      × ((max_canonical_bytes < e.byte_length + n) → emit_json_string e key ≡ err over_limit)
emit_json_string-preflight e key n h = elim (Result-cases (emit_json_string e key)) [
  | inl (e', f) ↦
      let g = emit_json_string-IsGrown e e' key n h f in
      (
        λ fits. (e', f, g.grown),
        λ over. absurd (let b = g.bounded in let c = g.grown in ground arith),
      )
  | inr (x, f) ↦
      let g = emit_json_string-exceeds e x key n h f in
      (λ fits. absurd (ground arith), λ over. f ∙ ap err (emit_json_string-over_limit e x key f))
]
