-- ===== src/Tools/Identity.antt =====
-- The identities of packages/core/src/provider-tool-identity.ts: that they are well formed, and that they
-- tell their random bytes.
use tool.Common.{
  ℕ, ◌*◌, ◌/◌, ◌%◌, ◌<◌, true, some, List, [], ◌∷◌, ◌++◌, length, drop, all, All, ok, ◌≡◌, refl, ap,
  arith,
}
use tool.Common.Text.{codes}
use tool.Js.{string}
use tool.Patterns.{is_hexadecimal, hexadecimal_pattern, prefixed_pattern}
use tool.Requirements.{hexadecimal}
use tool.Requirements.Emit.{hexadecimal_digit}
use tool.Tools.{
  ProviderToolIdentity, tool_id_pattern, parse_provider_tool_id, create_provider_tool_identity,
}

-- The bytes of a `Uint8Array`.
abbrev pub IsBytes : List ℕ → Type 0
IsBytes bs = All (λ b. b < 256) bs

length-hexadecimal : (bs : List ℕ) → length (hexadecimal bs) ≡ 2 * length bs
unfolding hexadecimal
length-hexadecimal [] = refl
length-hexadecimal (b ∷ bs) = omega (arith, length-hexadecimal bs)

is_hexadecimal-digit : (d : ℕ) → d < 16 → is_hexadecimal (hexadecimal_digit d) ≡ true
is_hexadecimal-digit d h = ground arith

all-hexadecimal : (bs : List ℕ) → IsBytes bs → all is_hexadecimal (hexadecimal bs) ≡ true
unfolding hexadecimal
all-hexadecimal [] h = refl
all-hexadecimal (b ∷ bs) (small, h) =
    rw
      (
        is_hexadecimal-digit (b / 16) (omega arith),
        is_hexadecimal-digit (b % 16) (omega arith),
        all-hexadecimal bs h,
      )
      refl

digit-injective :
    (d d' : ℕ) → d < 16 → d' < 16 → hexadecimal_digit d ≡ hexadecimal_digit d' → d ≡ d'
digit-injective d d' h h' e = ground arith

hexadecimal-injective :
    (bs bs' : List ℕ) → IsBytes bs → IsBytes bs' → hexadecimal bs ≡ hexadecimal bs' → bs ≡ bs'
unfolding hexadecimal
hexadecimal-injective [] [] h h' e = refl
hexadecimal-injective [] (b ∷ bs) h h' e = absurd cc
hexadecimal-injective (b ∷ bs) [] h h' e = absurd cc
hexadecimal-injective (b ∷ bs) (b' ∷ bs') (small, h) (small', h') e =
    let high : hexadecimal_digit (b / 16) ≡ hexadecimal_digit (b' / 16) = cc in
    let low : hexadecimal_digit (b % 16) ≡ hexadecimal_digit (b' % 16) = cc in
    let others : hexadecimal bs ≡ hexadecimal bs' = cc in
    let quotient = digit-injective (b / 16) (b' / 16) (omega arith) (omega arith) high in
    let remainder = digit-injective (b % 16) (b' % 16) (omega arith) (omega arith) low in
    let first : b ≡ b' = omega arith in let rest = hexadecimal-injective bs bs' h h' others in cc

tool_id_pattern-hexadecimal :
    (bs : List ℕ)
    → IsBytes bs
    → length bs ≡ 16
    → tool_id_pattern (codes "tool_" ++ hexadecimal bs) ≡ true
unfolding tool_id_pattern prefixed_pattern hexadecimal_pattern
tool_id_pattern-hexadecimal bs h l = rw (all-hexadecimal bs h, length-hexadecimal bs, l) refl

identity_of : List ℕ → ProviderToolIdentity
identity_of bs = record {
  tool_public_id = codes "tool_" ++ hexadecimal bs;
  subject_public_id = codes "tool_" ++ hexadecimal bs;
  offering_public_id = codes "offering_" ++ hexadecimal bs;
  service_id = codes "tool_" ++ hexadecimal bs;
  service_slug = codes "tool-" ++ hexadecimal bs;
}

-- For 16 bytes an identity is created, its tool id is read as itself, and it has the tool id of another
-- 16 bytes only where the bytes are the same.
pub create_provider_tool_identity-faithful :
    (bs bs' : List ℕ)
    → IsBytes bs
    → IsBytes bs'
    → length bs ≡ 16
    → length bs' ≡ 16
    → (i : ProviderToolIdentity) × (i' : ProviderToolIdentity) × (create_provider_tool_identity
          (some bs)
        ≡ ok i)
      × (create_provider_tool_identity (some bs') ≡ ok i')
      × (parse_provider_tool_id (string i.tool_public_id) ≡ some i.tool_public_id)
      × (i.tool_public_id ≡ i'.tool_public_id → bs ≡ bs')
unfolding create_provider_tool_identity parse_provider_tool_id identity_of
create_provider_tool_identity-faithful bs bs' h h' l l' = (
  identity_of bs,
  identity_of bs',
  rw l refl,
  rw l' refl,
  rw (tool_id_pattern-hexadecimal bs h l) refl,
  λ same. hexadecimal-injective bs bs' h h' (ap (drop 5) same),
)
