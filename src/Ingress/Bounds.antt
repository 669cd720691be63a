-- ===== src/Ingress/Bounds.antt =====
-- The timestamps that packages/core/src/ingress-envelope.ts takes, in terms of numbers: the code
-- compares texts.
use tool.Common.{
  ℕ, zero, suc, ◌+◌, ◌-◌, ◌*◌, ◌≤◌, ◌<◌, Bool, true, not, ◌&&◌, ◌↔◌, [], ◌∷◌, length, all, leb, ltb,
  ◌==◌, ok, ◌≡◌, refl, sym, ap, ◌∙◌, arith, leb→le, and_split,
}
use tool.Common.Int.{ℤ, pos}
use tool.Common.Text.{Text}
use tool.Js.{string}
use tool.Value.{is_digit, canonical_integer, big_int}
use tool.Value.Decimal.{decimal, canonical_integer-decimal, big_int-decimal, decimal-big_int}
use tool.Requirements.Captured.{precedes}
use tool.Ingress.{maximum_timestamp, is_timestamp, parse_timestamp}

pow10 : ℕ → ℕ
pow10 zero = 1
pow10 (suc n) = 10 * pow10 n

-- The value of digits that follow `acc` lies between `acc` and `acc + 1`, scaled.
big_int_above : (acc : ℕ) (s : Text) → acc * pow10 (length s) ≤ big_int acc s
unfolding big_int pow10
big_int_above acc [] = omega arith
big_int_above acc (c ∷ s) = grind (arith, big_int_above (acc * 10 + (c - b'0')) s)

is_digit-bounds : (c : ℕ) → is_digit c ≡ true → (48 ≤ c) × (c ≤ 57)
unfolding is_digit
is_digit-bounds c h = ground arith

mul_mono : (a b c : ℕ) → a ≤ b → a * c ≤ b * c
mul_mono a b c h = grind arith

big_int_below :
    (acc : ℕ) (s : Text) → all is_digit s ≡ true → big_int acc s < (acc + 1) * pow10 (length s)
unfolding big_int pow10
big_int_below acc [] h = omega arith
big_int_below acc (c ∷ s) h =
    let (digit, digits) = and_split (is_digit c) (all is_digit s) h in
    let step = big_int_below (acc * 10 + (c - b'0')) s digits in
    let small = is_digit-bounds c digit in
    omega (
      arith,
      mul_mono (acc * 10 + (c - b'0') + 1) ((acc + 1) * 10) (pow10 (length s)) (omega arith),
    )

-- Where the numbers before differ, the digits after them do not matter.
big_int_order :
    (a b : ℕ) (s t : Text)
    → all is_digit s ≡ true
    → length s ≡ length t
    → a < b
    → big_int a s < big_int b t
big_int_order a b s t h l less = omega (
  arith,
  big_int_below a s h,
  mul_mono (a + 1) b (pow10 (length s)) (omega arith),
  big_int_above b t,
  ap (λ n. b * pow10 n) l,
)

-- Digits of one length compare as their values.
precedes-big_int :
    (acc : ℕ) (s t : Text)
    → all is_digit s ≡ true
    → all is_digit t ≡ true
    → length s ≡ length t
    → precedes s t ≡ ltb (big_int acc s) (big_int acc t)
unfolding precedes big_int
precedes-big_int acc [] [] h k l = ground arith
precedes-big_int acc [] (d ∷ t) h k l = absurd (omega arith)
precedes-big_int acc (c ∷ s) [] h k l = absurd (omega arith)
precedes-big_int acc (c ∷ s) (d ∷ t) h k l =
    let (digit, digits) = and_split (is_digit c) (all is_digit s) h in
    let (digit', digits') = and_split (is_digit d) (all is_digit t) k in
    let (low, high) = is_digit-bounds c digit in
    let (low', high') = is_digit-bounds d digit' in
    let same : length s ≡ length t = omega arith in
    ground (
      arith,
      precedes-big_int (acc * 10 + (c - b'0')) s t digits digits' same,
      big_int_order (acc * 10 + (c - b'0')) (acc * 10 + (d - b'0')) s t digits same,
      big_int_order (acc * 10 + (d - b'0')) (acc * 10 + (c - b'0')) t s digits' (sym same),
    )

pow10_mono : (m n : ℕ) → m ≤ n → pow10 m ≤ pow10 n
unfolding pow10
pow10_mono zero zero h = omega arith
pow10_mono zero (suc n) h = omega (arith, pow10_mono zero n (omega arith))
pow10_mono (suc m) zero h = absurd (omega arith)
pow10_mono (suc m) (suc n) h = omega (arith, pow10_mono m n (omega arith))

limit : ℕ
limit = 9223372036854775807

maximum-value : big_int 0 maximum_timestamp ≡ limit
unfolding big_int limit
maximum-value = refl

pub canonical_integer-digits : (s : Text) → canonical_integer s ≡ true → all is_digit s ≡ true
unfolding canonical_integer is_digit
canonical_integer-digits [] h = cc
canonical_integer-digits (c ∷ []) h = ground arith
canonical_integer-digits (c ∷ d ∷ s) h = ground arith

-- A canonical integer of two digits or more does not begin with 0.
canonical_integer-large :
    (s : Text) (n : ℕ)
    → canonical_integer s ≡ true
    → length s ≡ suc (suc n)
    → pow10 (suc n) ≤ big_int 0 s
unfolding canonical_integer big_int
canonical_integer-large [] n h l = absurd (omega arith)
canonical_integer-large (c ∷ s) n h l =
    let leading : 49 ≤ c = ground arith in
    omega (
      arith,
      big_int_above (0 * 10 + (c - b'0')) s,
      mul_mono 1 (0 * 10 + (c - b'0')) (pow10 (length s)) (omega arith),
      ap pow10 {x = length s} {y = suc n} (omega arith),
    )

pow10_19 : pow10 19 ≡ 10000000000000000000
unfolding pow10
pow10_19 = refl

pow10_18 : pow10 18 ≡ 1000000000000000000
unfolding pow10
pow10_18 = refl

length-maximum : length maximum_timestamp ≡ 19
length-maximum = refl

maximum-digits : all is_digit maximum_timestamp ≡ true
unfolding is_digit
maximum-digits = refl

value_long : (s : Text) → canonical_integer s ≡ true → 19 < length s → limit < big_int 0 s
unfolding limit
value_long s h l = omega (
  arith,
  canonical_integer-large s (length s - 2) h (omega arith),
  pow10_mono 19 (suc (length s - 2)) (omega arith),
  pow10_19,
)

value_short : (s : Text) → canonical_integer s ≡ true → length s < 19 → big_int 0 s ≤ limit
unfolding limit
value_short s h l = omega (
  arith,
  big_int_below 0 s (canonical_integer-digits s h),
  pow10_mono (length s) 18 (omega arith),
  pow10_18,
)

value_equal :
    (s : Text)
    → canonical_integer s ≡ true
    → length s ≡ 19
    → precedes maximum_timestamp s ≡ ltb limit (big_int 0 s)
value_equal s h l =
    precedes-big_int 0 maximum_timestamp s maximum-digits (canonical_integer-digits s h)
      (length-maximum ∙ sym l)
    ∙ ap (λ n. ltb n (big_int 0 s)) maximum-value

-- A comparison by the length, and by `p` where the lengths are equal.
by_length :
    (l v m : ℕ) (p : Bool)
    → (19 < l → m < v)
    → (l < 19 → v ≤ m)
    → (l ≡ 19 → p ≡ ltb m v)
    → (not (ltb 19 l) && not (l == 19 && p)) ≡ leb v m
by_length l v m p long short equal = ground arith

-- A canonical integer is a timestamp when its value is.
is_timestamp-canonical :
    (s : Text) → canonical_integer s ≡ true → is_timestamp s ≡ leb (big_int 0 s) limit
unfolding is_timestamp
is_timestamp-canonical s h =
    rw (h, length-maximum)
      (by_length (length s) (big_int 0 s) limit (precedes maximum_timestamp s) (value_long s h)
        (value_short s h) (value_equal s h))

pub is_timestamp→canonical : (s : Text) → is_timestamp s ≡ true → canonical_integer s ≡ true
unfolding is_timestamp
is_timestamp→canonical s h = ground arith

parse_timestamp-decimal : (n : ℕ) → n ≤ limit → parse_timestamp (string (decimal n)) ≡ ok (pos n)
unfolding parse_timestamp
parse_timestamp-decimal n small =
    rw (is_timestamp-canonical (decimal n) (canonical_integer-decimal n), big_int-decimal n)
      (ground arith)

-- A text is read as the timestamp t exactly when it is the decimal text, without leading zeros, of a
-- number of at most 9223372036854775807 and t is that number.
pub parse_timestamp_iff :
    (s : Text) (t : ℤ)
    → (parse_timestamp (string s) ≡ ok t)
      ↔ ((n : ℕ) × (n ≤ 9223372036854775807) × (s ≡ decimal n) × (t ≡ pos n))
unfolding parse_timestamp limit
parse_timestamp_iff s t = (forth, back)
  where
    forth :
        parse_timestamp (string s) ≡ ok t
        → (n : ℕ) × (n ≤ 9223372036854775807) × (s ≡ decimal n) × (t ≡ pos n)
    forth h =
        let accepted : is_timestamp s ≡ true = ground arith in
        let canonical = is_timestamp→canonical s accepted in
        let value : t ≡ pos (big_int 0 s) = ground arith in
        (
          big_int 0 s,
          leb→le (big_int 0 s) limit (sym (is_timestamp-canonical s canonical) ∙ accepted),
          sym (decimal-big_int s canonical),
          value,
        )

    back :
        ((n : ℕ) × (n ≤ 9223372036854775807) × (s ≡ decimal n) × (t ≡ pos n))
        → parse_timestamp (string s) ≡ ok t
    back (n, small, text, value) = rw (text, value) (parse_timestamp-decimal n small)
