-- ===== src/Value.antt =====
-- packages/core/src/value.ts: exact values and Hedera identifiers in canonical text.
pub mod Tests
pub mod Decimal
use tool.Common.{
  ℕ, ◌+◌, ◌-◌, ◌*◌, Bool, true, false, ◌&&◌, ◌||◌, Option, none, some, List, [], ◌∷◌, length, all,
  ltb, leb, ◌==◌, if◌then◌else◌,
}
use tool.Common.Int.{ℤ, pos, ltb_ℤ}
use tool.Common.Text.{Text}
use tool.Js.{Value, string}

unfoldable pub is_digit : ℕ → Bool
is_digit c = leb b'0' c && leb c b'9'

-- `(?:0|[1-9][0-9]*)`, anchored at both ends
unfoldable pub canonical_integer : Text → Bool
unfolding is_digit
canonical_integer [] = false
canonical_integer (c ∷ s) =
    if c == b'0' then length s == 0 else leb b'1' c && leb c b'9' && all is_digit s

-- `BigInt` on decimal digits, from the left
unfoldable pub big_int : ℕ → Text → ℕ
big_int acc [] = acc
big_int acc (c ∷ s) = big_int (acc * 10 + (c - b'0')) s

unfoldable pub parse_canonical_integer : Value → Option ℤ
unfolding canonical_integer big_int
parse_canonical_integer (string s) = if canonical_integer s then some (pos (big_int 0 s)) else none
parse_canonical_integer _ = none

unfoldable pub parse_tinybar : Value → Option ℤ
unfolding parse_canonical_integer
parse_tinybar input = parse_canonical_integer input

unfoldable pub parse_basis_points : Value → Option ℤ
unfolding parse_canonical_integer
parse_basis_points input = elim (parse_canonical_integer input) [
  | none ↦ none
  | some value ↦ if ltb_ℤ (pos 10000) value then none else some value
]

unfoldable pub parse_note_units : Value → Option ℤ
unfolding parse_canonical_integer
parse_note_units input = parse_canonical_integer input

-- The text before the first `sep` and the text after it.
unfoldable pub split_first : ℕ → Text → Option (Text × Text)
split_first sep [] = none
split_first sep (c ∷ s) =
    let later : Option (Text × Text) = elim (split_first sep s) [
      | none ↦ none
      | some (a, b) ↦ some (c ∷ a, b)
    ] in
    if c == sep then some ([], s) else later

-- Three canonical integers joined by dots. No canonical integer holds a dot, so the dots are the
-- first two.
unfoldable pub canonical_account_id : Text → Bool
unfolding canonical_integer split_first
canonical_account_id s = elim (split_first b'.' s) [
  | none ↦ false
  | some (a, rest) ↦ elim (split_first b'.' rest) [
    | none ↦ false
    | some (b, c) ↦ canonical_integer a && canonical_integer b && canonical_integer c
  ]
]

-- `(?:0|[1-9][0-9]{0,7}|[0-9]{9})`
unfoldable pub canonical_nanoseconds : Text → Bool
unfolding canonical_integer is_digit
canonical_nanoseconds s =
    (canonical_integer s && leb (length s) 8) || (length s == 9 && all is_digit s)

unfoldable pub canonical_transaction_id : Text → Bool
unfolding canonical_account_id canonical_nanoseconds
canonical_transaction_id s = elim (split_first b'@' s) [
  | none ↦ false
  | some (account, stamp) ↦ elim (split_first b'.' stamp) [
    | none ↦ false
    | some (seconds, nanos) ↦
        canonical_account_id account && canonical_integer seconds && canonical_nanoseconds nanos
  ]
]

unfoldable pub parse_hedera_account_id : Value → Option Text
unfolding canonical_account_id
parse_hedera_account_id (string s) = if canonical_account_id s then some s else none
parse_hedera_account_id _ = none

unfoldable pub parse_hedera_transaction_id : Value → Option Text
unfolding canonical_transaction_id
parse_hedera_transaction_id (string s) = if canonical_transaction_id s then some s else none
parse_hedera_transaction_id _ = none
