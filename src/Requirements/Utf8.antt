-- ===== src/Requirements/Utf8.antt =====
-- UTF-8 of texts without unpaired surrogates: the bytes of a text are those of its parts. See
-- `new TextEncoder().encode` in packages/core/src/requirements-offering-quote.ts.
use tool.Common.{
  ℕ, ◌+◌, Bool, true, false, not, ◌&&◌, ◌||◌, [], ◌∷◌, ◌++◌, length, length-append, ◌≡◌, refl,
  arith, inl, inr, Bool-cases, if◌then◌else◌, and_split, ap, sym, ◌∙◌, leb,
}
use mathlib.Core.List.{append_assoc, append-nil}
use tool.Common.Text.{Text}
use tool.Requirements.Keys.{is_high_surrogate, is_low_surrogate}
use tool.Requirements.Emit.{is_ascii}
use tool.Requirements.{utf8_encode, encode_unit, encode_pair}

-- Every surrogate is half of a pair.
unfoldable pub paired : Text → Bool
paired [] = true
paired (c ∷ []) = not (is_high_surrogate c || is_low_surrogate c)
paired (c ∷ d ∷ s) =
    let pair = paired s in
    let single = not (is_high_surrogate c || is_low_surrogate c) && paired (d ∷ s) in
    if is_high_surrogate c && is_low_surrogate d then pair else single

-- The bytes of a text.
abbrev pub size : Text → ℕ
size s = length (utf8_encode s)

and_true : (a b : Bool) → a ≡ true → b ≡ true → (a && b) ≡ true
and_true a b h k = ground arith

paired_pair :
    (c d : ℕ) (s : Text)
    → (is_high_surrogate c && is_low_surrogate d) ≡ true
    → paired (c ∷ d ∷ s) ≡ paired s
unfolding paired
paired_pair c d s h = rw h refl

paired_single :
    (c d : ℕ) (s : Text)
    → (is_high_surrogate c && is_low_surrogate d) ≡ false
    → paired (c ∷ d ∷ s) ≡ (paired (c ∷ []) && paired (d ∷ s))
unfolding paired
paired_single c d s h = rw h refl

encode_paired :
    (c d : ℕ) (s : Text)
    → (is_high_surrogate c && is_low_surrogate d) ≡ true
    → utf8_encode (c ∷ d ∷ s) ≡ encode_pair c d ++ utf8_encode s
unfolding utf8_encode
encode_paired c d s h = rw h refl

encode_single :
    (c d : ℕ) (s : Text)
    → (is_high_surrogate c && is_low_surrogate d) ≡ false
    → utf8_encode (c ∷ d ∷ s) ≡ encode_unit c ++ utf8_encode (d ∷ s)
unfolding utf8_encode
encode_single c d s h = rw h refl

-- No unit after a lone one completes a pair.
lone : (c d : ℕ) → paired (c ∷ []) ≡ true → (is_high_surrogate c && is_low_surrogate d) ≡ false
unfolding paired
lone c d h = ground arith

pub paired-append : (s t : Text) → paired s ≡ true → paired t ≡ true → paired (s ++ t) ≡ true
paired-append [] t h k = k
paired-append (c ∷ []) [] h k = h
paired-append (c ∷ []) (d ∷ t) h k = paired_single c d t (lone c d h) ∙ and_true _ _ h k
paired-append (c ∷ d ∷ s) t h k = elim (Bool-cases (is_high_surrogate c && is_low_surrogate d)) [
  | inl p ↦ paired_pair c d (s ++ t) p ∙ paired-append s t (sym (paired_pair c d s p) ∙ h) k
  | inr p ↦
      let (first, rest) =
        and_split (paired (c ∷ [])) (paired (d ∷ s)) (sym (paired_single c d s p) ∙ h) in
      paired_single c d (s ++ t) p ∙ and_true _ _ first (paired-append (d ∷ s) t rest k)
]

pub utf8_encode-append :
    (s t : Text) → paired s ≡ true → utf8_encode (s ++ t) ≡ utf8_encode s ++ utf8_encode t
unfolding utf8_encode
utf8_encode-append [] t h = refl
utf8_encode-append (c ∷ []) [] h = sym (append-nil (encode_unit c))
utf8_encode-append (c ∷ []) (d ∷ t) h = encode_single c d t (lone c d h)
utf8_encode-append (c ∷ d ∷ s) t h = elim (Bool-cases (is_high_surrogate c && is_low_surrogate d)) [
  | inl p ↦
      encode_paired c d (s ++ t) p
      ∙ ap (λ x. encode_pair c d ++ x) (utf8_encode-append s t (sym (paired_pair c d s p) ∙ h))
      ∙ sym (append_assoc (encode_pair c d) (utf8_encode s) (utf8_encode t))
      ∙ ap (λ x. x ++ utf8_encode t) (sym (encode_paired c d s p))
  | inr p ↦
      let rest =
        (and_split (paired (c ∷ [])) (paired (d ∷ s)) (sym (paired_single c d s p) ∙ h)).1 in
      encode_single c d (s ++ t) p
      ∙ ap (λ x. encode_unit c ++ x) (utf8_encode-append (d ∷ s) t rest)
      ∙ sym (append_assoc (encode_unit c) (utf8_encode (d ∷ s)) (utf8_encode t))
      ∙ ap (λ x. x ++ utf8_encode t) (sym (encode_single c d s p))
]

pub size-append : (s t : Text) → paired s ≡ true → size (s ++ t) ≡ size s + size t
size-append s t h =
    ap length (utf8_encode-append s t h) ∙ length-append (utf8_encode s) (utf8_encode t)

lone_unit : (c : ℕ) → (is_high_surrogate c || is_low_surrogate c) ≡ false → paired (c ∷ []) ≡ true
unfolding paired
lone_unit c h = rw h refl

-- A unit that is no surrogate stands for itself.
pub paired-cons :
    (c : ℕ) (s : Text)
    → (is_high_surrogate c || is_low_surrogate c) ≡ false
    → paired s ≡ true
    → paired (c ∷ s) ≡ true
paired-cons c [] h k = lone_unit c h
paired-cons c (d ∷ s) h k =
    paired_single c d s (lone c d (lone_unit c h)) ∙ and_true _ _ (lone_unit c h) k

pub size-cons :
    (c : ℕ) (s : Text)
    → (is_high_surrogate c || is_low_surrogate c) ≡ false
    → size (c ∷ s) ≡ length (encode_unit c) + size s
unfolding utf8_encode
size-cons c [] h = omega arith
size-cons c (d ∷ s) h =
    ap length (encode_single c d s (lone c d (lone_unit c h)))
    ∙ length-append (encode_unit c) (utf8_encode (d ∷ s))

ascii_unit :
    (c : ℕ)
    → leb c 0x7f ≡ true
    → (length (encode_unit c) ≡ 1) × ((is_high_surrogate c || is_low_surrogate c) ≡ false)
unfolding encode_unit
ascii_unit c h = ground arith

pub is_ascii→paired : (s : Text) → is_ascii s ≡ true → paired s ≡ true
unfolding is_ascii paired
is_ascii→paired [] h = refl
is_ascii→paired (c ∷ s) h =
    let (first, rest) = and_split (leb c 0x7f) (is_ascii s) h in
    paired-cons c s (ascii_unit c first).1 (is_ascii→paired s rest)

pub is_ascii→size : (s : Text) → is_ascii s ≡ true → size s ≡ length s
unfolding is_ascii utf8_encode
is_ascii→size [] h = refl
is_ascii→size (c ∷ s) h =
    let (first, rest) = and_split (leb c 0x7f) (is_ascii s) h in
    omega
      (arith, size-cons c s (ascii_unit c first).1, (ascii_unit c first).0, is_ascii→size s rest)

-- Two halves of a pair are four bytes.
pub pair-paired :
    (c d : ℕ) → (is_high_surrogate c && is_low_surrogate d) ≡ true → paired (c ∷ d ∷ []) ≡ true
unfolding paired
pair-paired c d h = rw h refl

pub pair-size :
    (c d : ℕ) → (is_high_surrogate c && is_low_surrogate d) ≡ true → size (c ∷ d ∷ []) ≡ 4
unfolding utf8_encode
pair-size c d h = ap length (encode_paired c d [] h)
