-- ===== src/Value/Tests.antt =====
-- Texts that are read as exact values.
use tool.Common.{ℕ, some, ◌≡◌, refl}
use tool.Common.Int.{pos}
use tool.Common.Text.{codes}
use tool.Js.{string}
use tool.Value.{parse_canonical_integer}
use tool.Value.Decimal.{decimal, parse-decimal, decimal-parse}

parse-decimal_example : parse_canonical_integer (string (decimal 1050)) ≡ some (pos 1050)
parse-decimal_example = parse-decimal 1050

read : parse_canonical_integer (string (codes "1050")) ≡ some (pos 1050)
unfolding parse_canonical_integer
read = refl

decimal-parse_example : (n : ℕ) × (pos 1050 ≡ pos n) × (codes "1050" ≡ decimal n)
decimal-parse_example = decimal-parse (codes "1050") (pos 1050) read
