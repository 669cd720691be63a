-- ===== src/Requirements/Writes.antt =====
-- The printing of packages/core/src/requirements-offering-quote.ts, with its chunks, its byte count and
-- its limit, against the plain printing.
use tool.Common.{
  ℕ, ◌+◌, ◌≤◌, ◌<◌, true, false, ◌&&◌, ◌||◌, List, [], ◌∷◌, ◌++◌, length, ltb, leb, Result, ok, err,
  ◌>>=◌, ◌≡◌, ◌⊎◌, inl, inr, refl, arith, ap, sym, ◌∙◌, Bool-cases,
}
use mathlib.Core.List.{append_assoc, append-nil}
use mathlib.Core.Path.{subst}
use tool.Common.Text.{Text}
use tool.Requirements.Keys.{
  max_canonical_bytes, over_limit, unit_byte_length, is_high_surrogate, is_low_surrogate,
}
use tool.Requirements.Emit.{
  Emitter, append_bounded, is_ascii, append_ascii, append_utf8, emit_unicode_escape, unicode_escape,
  emitter_chunk_code_units, emit_unit, emit_units, emit_json_string, join_chunks,
  finish_canonical_emitter,
}
use tool.Requirements.{encode_unit, utf8_encode}
use tool.Requirements.Refusal.{unicode_escape-is_ascii}
use tool.Requirements.Utf8.{
  paired, size, paired-append, size-append, size-cons, paired-cons, is_ascii→paired, is_ascii→size,
  pair-paired, pair-size,
}
use tool.Requirements.Print.{unit_text, units_text, quoted}

abbrev pub text : Emitter → Text
text e = finish_canonical_emitter e

abbrev pub IsBounded : Emitter → Type 0
IsBounded e = e.byte_length ≤ max_canonical_bytes

-- An emitter with a text appended, its bytes counted, within the limit.
pub record IsAppended (e e' : Emitter) (v : Text) : Type 0 where
  pub appended : text e' ≡ text e ++ v
  pub counted : e'.byte_length ≡ e.byte_length + size v
  pub bounded : e'.byte_length ≤ max_canonical_bytes

-- An action that appends a text where it fits, and otherwise throws that the limit is exceeded.
abbrev pub Outcome : Emitter → Result Emitter → Text → Type 0
Outcome e m v =
    ((m ≡ err over_limit) × (max_canonical_bytes < e.byte_length + size v))
    ⊎ ((e' : Emitter) × (m ≡ ok e') × IsAppended e e' v)

pub record Writes (e : Emitter) (m : Result Emitter) (v : Text) : Type 0 where
  pub well : paired v ≡ true
  pub outcome : Outcome e m v

join_chunks-append : (cs : List Text) (r v : Text) → join_chunks cs (r ++ v) ≡ join_chunks cs r ++ v
unfolding join_chunks
join_chunks-append [] r v = refl
join_chunks-append (c ∷ cs) r v =
    ap (join_chunks cs) (sym (append_assoc c r v)) ∙ join_chunks-append cs (c ++ r) v

flushed : (cs : List Text) (r v : Text) → join_chunks ((r ++ v) ∷ cs) [] ≡ join_chunks cs r ++ v
unfolding join_chunks
flushed cs r v = ap (join_chunks cs) (append-nil (r ++ v)) ∙ join_chunks-append cs r v

append_bounded-Outcome :
    (e : Emitter) (v : Text) (n : ℕ) → n ≡ size v → Outcome e (append_bounded e v n) v
unfolding append_bounded finish_canonical_emitter
append_bounded-Outcome e v n q = elim (Bool-cases (ltb max_canonical_bytes (e.byte_length + n))) [
  | inl over ↦ inl (rw over refl, ground arith)
  | inr fits ↦ elim (Bool-cases (leb emitter_chunk_code_units (length (e.current_chunk ++ v)))) [
    | inl long ↦ inr (
      record {
        chunks = (e.current_chunk ++ v) ∷ e.chunks;
        current_chunk = [];
        byte_length = e.byte_length + n;
      },
      rw (fits, long) refl,
      record {
        appended = flushed e.chunks e.current_chunk v;
        counted = omega (arith, q);
        bounded = ground arith;
      },
    )
    | inr short ↦ inr (
      record e { current_chunk = e.current_chunk ++ v; byte_length = e.byte_length + n },
      rw (fits, short) refl,
      record {
        appended = join_chunks-append e.chunks e.current_chunk v;
        counted = omega (arith, q);
        bounded = ground arith;
      },
    )
  ]
]

then-Outcome :
    (e : Emitter) (m : Result Emitter) (next : Emitter → Result Emitter) (v w : Text)
    → paired v ≡ true
    → Outcome e m v
    → ((e' : Emitter) → IsBounded e' → Outcome e' (next e') w)
    → Outcome e (m >>= next) (v ++ w)
then-Outcome e m next v w p (inl (q, over)) f = inl (rw q refl, omega (arith, size-append v w p))
then-Outcome e m next v w p (inr (e1, q, a)) f = elim (f e1 a.bounded) [
  | inl (r, over) ↦ inl (rw q r, omega (arith, size-append v w p, a.counted))
  | inr (e2, r, b) ↦ inr (
    e2,
    rw q r,
    record {
      appended = b.appended ∙ ap (λ x. x ++ w) a.appended ∙ append_assoc (text e) v w;
      counted = omega (arith, size-append v w p, a.counted, b.counted);
      bounded = b.bounded;
    },
  )
]

append_ascii-eq-bounded :
    (e : Emitter) (v : Text) → is_ascii v ≡ true → append_ascii e v ≡ append_bounded e v (length v)
unfolding append_ascii
append_ascii-eq-bounded e v h = rw h refl

pub append_ascii-Outcome :
    (e : Emitter) (v : Text) → is_ascii v ≡ true → Outcome e (append_ascii e v) v
append_ascii-Outcome e v h =
    subst (λ m. Outcome e m v) (sym (append_ascii-eq-bounded e v h))
      (append_bounded-Outcome e v (length v) (sym (is_ascii→size v h)))

-- The text of a unit is plain, or the unit itself with its two or three bytes.
short_unit :
    (c : ℕ)
    → (leb c 0x7f || (is_high_surrogate c || is_low_surrogate c)) ≡ true
    → (is_ascii (unit_text c) ≡ true) × (length (unit_text c) ≡ unit_byte_length c)
unfolding unit_text unit_byte_length is_ascii
short_unit c h = ground (arith, unicode_escape-is_ascii c)

long_unit :
    (c : ℕ)
    → (leb c 0x7f || (is_high_surrogate c || is_low_surrogate c)) ≡ false
    → (unit_text c ≡ c ∷ [])
      × (length (encode_unit c) ≡ unit_byte_length c)
      × ((is_high_surrogate c || is_low_surrogate c) ≡ false)
unfolding unit_text unit_byte_length encode_unit
long_unit c h = ground arith

emit_unit-eq-append :
    (e : Emitter) (c : ℕ) → emit_unit e c ≡ append_bounded e (unit_text c) (unit_byte_length c)
unfolding emit_unit unit_text unit_byte_length emit_unicode_escape append_utf8 is_ascii
emit_unit-eq-append e c = ground (
  arith,
  unicode_escape-is_ascii c,
  append_ascii-eq-bounded e (unicode_escape c),
  append_ascii-eq-bounded e (c ∷ []),
  append_ascii-eq-bounded e (b'\\' ∷ 0x22 ∷ []),
  append_ascii-eq-bounded e (b'\\' ∷ 0x5c ∷ []),
  append_ascii-eq-bounded e (b'\\' ∷ b'b' ∷ []),
  append_ascii-eq-bounded e (b'\\' ∷ b'f' ∷ []),
  append_ascii-eq-bounded e (b'\\' ∷ b'n' ∷ []),
  append_ascii-eq-bounded e (b'\\' ∷ b'r' ∷ []),
  append_ascii-eq-bounded e (b'\\' ∷ b't' ∷ []),
)

pub append_ascii-Writes :
    (e : Emitter) (v : Text) → is_ascii v ≡ true → Writes e (append_ascii e v) v
append_ascii-Writes e v h = record {
  well = is_ascii→paired v h;
  outcome = append_ascii-Outcome e v h;
}

emit_unit-Writes : (e : Emitter) (c : ℕ) → Writes e (emit_unit e c) (unit_text c)
unfolding paired utf8_encode
emit_unit-Writes e c =
    subst (λ m. Writes e m (unit_text c)) (sym (emit_unit-eq-append e c))
      (elim (Bool-cases (leb c 0x7f || (is_high_surrogate c || is_low_surrogate c))) [
        | inl h ↦
            let (plain, n) = short_unit c h in
            record {
              well = is_ascii→paired (unit_text c) plain;
              outcome =
                  append_bounded-Outcome e (unit_text c) (unit_byte_length c)
                    (sym (is_ascii→size (unit_text c) plain ∙ n));
            }
        | inr h ↦
            let (same, n, single) = long_unit c h in
            record {
              well = subst (λ v. paired v ≡ true) (sym same) (paired-cons c [] single refl);
              outcome =
                  append_bounded-Outcome e (unit_text c) (unit_byte_length c)
                    (sym n ∙ omega (arith, size-cons c [] single) ∙ ap size (sym same));
            }
      ])

pair-Writes :
    (e : Emitter) (c d : ℕ)
    → (is_high_surrogate c && is_low_surrogate d) ≡ true
    → Writes e (append_utf8 e (c ∷ d ∷ []) 4) (c ∷ d ∷ [])
unfolding append_utf8
pair-Writes e c d h = record {
  well = pair-paired c d h;
  outcome = append_bounded-Outcome e (c ∷ d ∷ []) 4 (sym (pair-size c d h));
}

-- The whole of a chain of two actions.
pub chain-Writes :
    (e : Emitter) (m : Result Emitter) (next : Emitter → Result Emitter) (v w : Text)
    → IsBounded e
    → Writes e m v
    → ((e' : Emitter) → IsBounded e' → Writes e' (next e') w)
    → Writes e (m >>= next) (v ++ w)
chain-Writes e m next v w b a f = record {
  well = paired-append v w a.well ((f e b).well);
  outcome = then-Outcome e m next v w a.well a.outcome (λ e' b'. (f e' b').outcome);
}

pub return-Writes : (e : Emitter) → IsBounded e → Writes e (ok e) []
unfolding paired utf8_encode
return-Writes e h = record {
  well = refl;
  outcome = inr (
    e,
    refl,
    record { appended = sym (append-nil (text e)); counted = omega arith; bounded = h },
  );
}

pub emit_units-Writes :
    (e : Emitter) (s : Text) → IsBounded e → Writes e (emit_units e s) (units_text s)
unfolding emit_units units_text
emit_units-Writes e [] b = return-Writes e b
emit_units-Writes e (c ∷ []) b = emit_unit-Writes e c
emit_units-Writes e (c ∷ d ∷ s) b = elim (Bool-cases (is_high_surrogate c && is_low_surrogate d)) [
  | inl h ↦ rw (h) (
      chain-Writes e (append_utf8 e (c ∷ d ∷ []) 4) (λ e1. emit_units e1 s) (c ∷ d ∷ [])
        (units_text s) b (pair-Writes e c d h) (λ e1 b1. emit_units-Writes e1 s b1))
  | inr h ↦ rw (h) (
      chain-Writes e (emit_unit e c) (λ e1. emit_units e1 (d ∷ s)) (unit_text c)
        (units_text (d ∷ s)) b (emit_unit-Writes e c) (λ e1 b1. emit_units-Writes e1 (d ∷ s) b1))
]

pub emit_json_string-Writes :
    (e : Emitter) (s : Text) → IsBounded e → Writes e (emit_json_string e s) (quoted s)
unfolding emit_json_string quoted is_ascii
emit_json_string-Writes e s b =
    chain-Writes e (append_ascii e (0x22 ∷ []))
      (λ e1. emit_units e1 s >>= λ e2. append_ascii e2 (0x22 ∷ [])) (0x22 ∷ [])
      (units_text s ++ (0x22 ∷ [])) b (append_ascii-Writes e (0x22 ∷ []) refl)
      (λ e1 b1.
        chain-Writes e1 (emit_units e1 s) (λ e2. append_ascii e2 (0x22 ∷ [])) (units_text s)
          (0x22 ∷ []) b1 (emit_units-Writes e1 s b1)
          (λ e2 b2. append_ascii-Writes e2 (0x22 ∷ []) refl))
