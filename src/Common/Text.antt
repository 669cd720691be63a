-- ===== src/Common/Text.antt =====
-- Strings as the sequences of their UTF-16 code units, with what the program uses of `String`.
use Prim.Native.Char.{code}
use Prim.Native.Nat.{ℕ}
use Prim.Native.String.{String}
use mathlib.Core.Path.{◌≡◌, refl}
use mathlib.Core.Logic.{◌↔◌}
use mathlib.Core.Bool.{Bool, true, false, ◌&&◌, ◌||◌}
use mathlib.Core.List.{List, [], ◌∷◌, reverse}
use native.Mathlib.Omega.{arith}
use tool.Common.Tests.{leb, ◌==◌, if◌then◌else◌}

abbrev pub Text : Type 0
Text = List ℕ

-- The code units of a literal that holds no character beyond U+FFFF.
abbrev pub codes : String → Text
codes String.[] = []
codes (String.◌∷◌ c s) = code c ∷ codes s

infix 50 ◌===◌
unfoldable pub ◌===◌ : Text → Text → Bool
[] === [] = true
[] === (d ∷ t) = false
(c ∷ s) === [] = false
(c ∷ s) === (d ∷ t) = (c == d) && s === t

pub ===_iff : (s t : Text) → ((s === t) ≡ true) ↔ (s ≡ t)
unfolding ◌===◌
===_iff [] [] = ground arith
===_iff [] (d ∷ t) = ground arith
===_iff (c ∷ s) [] = ground arith
===_iff (c ∷ s) (d ∷ t) = ground (arith, ===_iff s t)

pub ===_refl : (s : Text) → (s === s) ≡ true
===_refl s = (===_iff s s).1 refl

-- The white space and the line ends that `trim` removes.
unfoldable pub is_space : ℕ → Bool
is_space c =
    (leb 9 c && leb c 13)
    || c == 32
    || c == 0xa0
    || c == 0x1680
    || (leb 0x2000 c && leb c 0x200a)
    || c == 0x2028
    || c == 0x2029
    || c == 0x202f
    || c == 0x205f
    || c == 0x3000
    || c == 0xfeff

unfoldable pub trim_start : Text → Text
trim_start [] = []
trim_start (c ∷ s) = let rest = trim_start s in if is_space c then rest else c ∷ s

unfoldable pub trim : Text → Text
unfolding trim_start is_space
trim s = reverse (trim_start (reverse (trim_start s)))
