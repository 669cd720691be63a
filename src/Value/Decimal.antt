-- ===== src/Value/Decimal.antt =====
-- Decimal text: printing a number, and reading it back by value.ts.
use mathlib.Core.List.{reverse-cons, reverse-reverse}
use tool.Common.{
  ℕ, zero, suc, ◌+◌, ◌-◌, ◌*◌, ◌/◌, ◌%◌, ◌<◌, Bool, true, false, ◌&&◌, some, [], ◌∷◌, ◌++◌, length,
  length-append, all, leb, ltb, ◌==◌, if◌then◌else◌, ◌≡◌, refl, sym, ap, ◌∙◌, arith, reverse, inl,
  inr, Bool-cases,
}
use tool.Common.Int.{ℤ, pos}
use tool.Common.Text.{Text}
use tool.Js.{string}
use tool.Value.{is_digit, canonical_integer, big_int, parse_canonical_integer}

-- The digits of a number, the least significant first.
digits_from : ℕ → ℕ → Text
digits_from zero n = []
digits_from (suc f) n =
    let more = digits_from f (n / 10) in
    if ltb n 10 then (n + b'0') ∷ [] else (n % 10 + b'0') ∷ more

-- The decimal text of a number.
unfoldable pub decimal : ℕ → Text
unfolding digits_from
decimal n = reverse (digits_from (suc n) n)

-- The value of digits, the least significant first.
value_of : Text → ℕ
value_of [] = 0
value_of (c ∷ s) = (c - b'0') + 10 * value_of s

-- Digits, the least significant first, that end in a digit other than 0.
is_positive : Text → Bool
is_positive [] = false
is_positive (c ∷ s) =
    let longer = is_digit c && is_positive s in
    if length s == 0 then leb b'1' c && leb c b'9' else longer

is_leading : Text → Bool
is_leading [] = false
is_leading (c ∷ s) = leb b'1' c && leb c b'9' && all is_digit s

value_of-digits_from : (f n : ℕ) → n < f → value_of (digits_from f n) ≡ n
unfolding value_of digits_from
value_of-digits_from zero n h = absurd (omega arith)
value_of-digits_from (suc f) n h = ground (arith, value_of-digits_from f (n / 10))

length-digits_from : (f n : ℕ) → n < f → 0 < length (digits_from f n)
unfolding digits_from
length-digits_from zero n h = absurd (omega arith)
length-digits_from (suc f) n h = ground arith

is_positive-digits_from : (f n : ℕ) → n < f → 0 < n → is_positive (digits_from f n) ≡ true
unfolding is_positive digits_from is_digit
is_positive-digits_from zero n h p = absurd (omega arith)
is_positive-digits_from (suc f) n h p =
    ground (arith, is_positive-digits_from f (n / 10), length-digits_from f (n / 10))

value_of_pos : (s : Text) → is_positive s ≡ true → 0 < value_of s
unfolding is_positive value_of is_digit
value_of_pos [] h = cc
value_of_pos (c ∷ s) h = ground (arith, value_of_pos s)

digits_from-value_of :
    (f : ℕ) (s : Text) → value_of s < f → is_positive s ≡ true → digits_from f (value_of s) ≡ s
unfolding is_positive value_of digits_from is_digit
digits_from-value_of zero s h p = absurd (omega arith)
digits_from-value_of (suc f) [] h p = cc
digits_from-value_of (suc f) (c ∷ []) h p = ground arith
digits_from-value_of (suc f) (c ∷ d ∷ s) h p =
    ground (arith, digits_from-value_of f (d ∷ s), value_of_pos (d ∷ s))

big_int-snoc :
    (acc : ℕ) (s : Text) (c : ℕ) → big_int acc (s ++ c ∷ []) ≡ big_int acc s * 10 + (c - b'0')
unfolding big_int
big_int-snoc acc [] c = refl
big_int-snoc acc (d ∷ s) c = big_int-snoc (acc * 10 + (d - b'0')) s c

big_int-reverse : (s : Text) → big_int 0 (reverse s) ≡ value_of s
unfolding value_of
big_int-reverse [] = unfold big_int in refl
big_int-reverse (c ∷ s) =
    rw (reverse-cons c s) (rw (big_int-snoc 0 (reverse s) c) (omega (arith, big_int-reverse s)))

all-snoc :
    (s : Text) (c : ℕ)
    → all is_digit s ≡ true
    → is_digit c ≡ true
    → all is_digit (s ++ c ∷ []) ≡ true
all-snoc [] c h k = ground arith
all-snoc (d ∷ s) c h k = ground (arith, all-snoc s c)

is_leading-snoc :
    (s : Text) (c : ℕ) → is_leading s ≡ true → is_digit c ≡ true → is_leading (s ++ c ∷ []) ≡ true
unfolding is_leading
is_leading-snoc [] c h k = cc
is_leading-snoc (d ∷ s) c h k = ground (arith, all-snoc s c)

is_leading-reverse : (s : Text) → is_positive s ≡ true → is_leading (reverse s) ≡ true
unfolding is_positive
is_leading-reverse [] h = cc
is_leading-reverse (c ∷ []) h = unfold is_leading in ground arith
is_leading-reverse (c ∷ d ∷ s) h =
    rw (reverse-cons c (d ∷ s)) (
      is_leading-snoc (reverse (d ∷ s)) c (is_leading-reverse (d ∷ s) (ground arith))
        (ground arith))

is_positive-snoc :
    (s : Text) (c : ℕ)
    → all is_digit s ≡ true
    → (leb b'1' c && leb c b'9') ≡ true
    → is_positive (s ++ c ∷ []) ≡ true
unfolding is_positive
is_positive-snoc [] c h k = k
is_positive-snoc (d ∷ s) c h k = ground (arith, is_positive-snoc s c, length-append s (c ∷ []))

all-reverse : (s : Text) → all is_digit s ≡ true → all is_digit (reverse s) ≡ true
all-reverse [] h = refl
all-reverse (c ∷ s) h =
    rw (reverse-cons c s) (all-snoc (reverse s) c (all-reverse s (ground arith)) (ground arith))

is_positive-reverse : (s : Text) → is_leading s ≡ true → is_positive (reverse s) ≡ true
unfolding is_leading
is_positive-reverse [] h = cc
is_positive-reverse (c ∷ s) h =
    rw (reverse-cons c s)
      (is_positive-snoc (reverse s) c (all-reverse s (ground arith)) (ground arith))

is_leading→canonical_integer : (s : Text) → is_leading s ≡ true → canonical_integer s ≡ true
unfolding is_leading canonical_integer
is_leading→canonical_integer [] h = cc
is_leading→canonical_integer (c ∷ s) h = ground arith

pub canonical_integer-decimal : (n : ℕ) → canonical_integer (decimal n) ≡ true
unfolding decimal
canonical_integer-decimal zero = unfold canonical_integer digits_from in refl
canonical_integer-decimal (suc n) = is_leading→canonical_integer _ (
    is_leading-reverse (digits_from (suc (suc n)) (suc n))
      (is_positive-digits_from (suc (suc n)) (suc n) (omega arith) (omega arith)))

pub big_int-decimal : (n : ℕ) → big_int 0 (decimal n) ≡ n
unfolding decimal
big_int-decimal n =
    big_int-reverse (digits_from (suc n) n) ∙ value_of-digits_from (suc n) n (omega arith)

-- Every natural number is read back from its decimal text.
pub parse-decimal : (n : ℕ) → parse_canonical_integer (string (decimal n)) ≡ some (pos n)
unfolding parse_canonical_integer
parse-decimal n = rw (canonical_integer-decimal n) (ap (λ k. some (pos k)) (big_int-decimal n))

decimal-big_int_leading : (s : Text) → is_leading s ≡ true → decimal (big_int 0 s) ≡ s
unfolding decimal
decimal-big_int_leading s h =
    let v : big_int 0 s ≡ value_of (reverse s) =
      ap (big_int 0) (sym (reverse-reverse s)) ∙ big_int-reverse (reverse s) in
    rw v (
      ap reverse (
        digits_from-value_of (suc (value_of (reverse s))) (reverse s) (omega arith)
          (is_positive-reverse s h))
      ∙ reverse-reverse s)

pub decimal-big_int : (s : Text) → canonical_integer s ≡ true → decimal (big_int 0 s) ≡ s
unfolding canonical_integer
decimal-big_int [] h = cc
decimal-big_int (c ∷ s) h = elim (Bool-cases (c == b'0')) [
  | inl zero_first ↦ leading_zero c s (ground arith) (ground arith)
  | inr other ↦ decimal-big_int_leading (c ∷ s) (unfold is_leading in ground arith)
]
  where
    leading_zero :
        (c : ℕ) (s : Text) → c ≡ b'0' → length s ≡ 0 → decimal (big_int 0 (c ∷ s)) ≡ c ∷ s
    leading_zero c [] e l = rw e (unfold decimal big_int in refl)
    leading_zero c (d ∷ s) e l = absurd (omega arith)

-- A text that is read as an integer is the decimal text of that integer: no sign, no leading zero,
-- no second spelling.
pub decimal-parse :
    (s : Text) (z : ℤ)
    → parse_canonical_integer (string s) ≡ some z
    → (n : ℕ) × (z ≡ pos n) × (s ≡ decimal n)
unfolding parse_canonical_integer
decimal-parse s z h = elim (Bool-cases (canonical_integer s)) [
  | inl canonical ↦ (big_int 0 s, ground arith, sym (decimal-big_int s canonical))
  | inr refused ↦ absurd (ground arith)
]
