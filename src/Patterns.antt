-- ===== src/Patterns.antt =====
-- The regular expressions that the readers of packages/core/src share, as tests of texts. Each is
-- anchored at both ends.
use tool.Common.{
  ℕ, ◌+◌, Bool, true, false, ◌&&◌, ◌||◌, [], ◌∷◌, length, take, drop, all, leb, ◌==◌, if◌then◌else◌,
  Result, ok, err, Error, ◌≡◌, refl, arith,
}
use tool.Common.Text.{Text, codes, ◌===◌}
use tool.Js.{Value, string}
use tool.Value.{is_digit}

-- `[A-Za-z0-9_-]`
abbrev pub is_word : ℕ → Bool
is_word c =
    (leb b'A' c && leb c b'Z')
    || (leb b'a' c && leb c b'z')
    || (leb b'0' c && leb c b'9')
    || c == b'_'
    || c == b'-'

-- `[0-9a-f]`
abbrev pub is_hexadecimal : ℕ → Bool
is_hexadecimal c = (leb b'0' c && leb c b'9') || (leb b'a' c && leb c b'f')

abbrev pub is_one_of : Text → ℕ → Bool
is_one_of [] c = false
is_one_of (d ∷ ds) c = (c == d) || is_one_of ds c

-- `[A-Za-z0-9_-]{1,most}`
unfoldable pub word_pattern : ℕ → Text → Bool
word_pattern most s = all is_word s && leb 1 (length s) && leb (length s) most

-- `[0-9a-f]{count}`
unfoldable pub hexadecimal_pattern : ℕ → Text → Bool
hexadecimal_pattern count s = all is_hexadecimal s && length s == count

-- `[A-Za-z0-9_-]{count}` and then one of the given units
unfoldable pub encoded_pattern : ℕ → Text → Text → Bool
encoded_pattern count last s =
    all is_word (take count s) && all (is_one_of last) (drop count s) && length s == count + 1

-- A text, and then hexadecimal digits.
unfoldable pub prefixed_pattern : Text → ℕ → Text → Bool
unfolding hexadecimal_pattern ◌===◌
prefixed_pattern prefix count s =
    (take (length prefix) s === prefix) && hexadecimal_pattern count (drop (length prefix) s)

unfoldable pub digits_pattern : ℕ → Text → Bool
unfolding is_digit
digits_pattern count s = all is_digit s && length s == count

-- 16 bytes in base64url: `^[A-Za-z0-9_-]{21}[AQgw]$`
unfoldable pub key_pattern : Text → Bool
unfolding encoded_pattern
key_pattern = encoded_pattern 21 (codes "AQgw")

-- `^0x[0-9a-f]{40}$`
unfoldable pub evm_address_pattern : Text → Bool
unfolding prefixed_pattern
evm_address_pattern = prefixed_pattern (codes "0x") 40

-- A text that matches, and a throw otherwise.
unfoldable pub parse_string : Error → (Text → Bool) → Value → Result Text
parse_string rejected pattern (string s) = if pattern s then ok s else err rejected
parse_string rejected pattern _ = err rejected

pub parse_string-eq-ok :
    (e : Error) (p : Text → Bool) (v : Value) (s : Text)
    → parse_string e p v ≡ ok s
    → (v ≡ string s) × (p s ≡ true)
unfolding parse_string
parse_string-eq-ok e p (string t) s h = ground arith
parse_string-eq-ok e p _ s h = absurd cc

-- What was read is read again.
pub parse_string-stable :
    (e : Error) (p : Text → Bool) (v : Value) (s : Text)
    → parse_string e p v ≡ ok s
    → parse_string e p (string s) ≡ ok s
unfolding parse_string
parse_string-stable e p v s h =
    let (text, matches) = parse_string-eq-ok e p v s h in rw matches refl
