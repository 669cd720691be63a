-- ===== src/Tools/Tests.antt =====
-- Two tools, of the bytes 0 to 15 and of 16 zeros.
use tool.Common.{ℕ, List, [], ◌∷◌, some, ok, ◌≡◌, refl, arith}
use tool.Js.{string}
use tool.Tools.{ProviderToolIdentity, parse_provider_tool_id, create_provider_tool_identity}
use tool.Tools.Identity.{IsBytes, create_provider_tool_identity-faithful}

abbrev counted : List ℕ
counted = 0 ∷ 1 ∷ 2 ∷ 3 ∷ 4 ∷ 5 ∷ 6 ∷ 7 ∷ 8 ∷ 9 ∷ 10 ∷ 11 ∷ 12 ∷ 13 ∷ 14 ∷ 255 ∷ []

abbrev zeros : List ℕ
zeros = 0 ∷ 0 ∷ 0 ∷ 0 ∷ 0 ∷ 0 ∷ 0 ∷ 0 ∷ 0 ∷ 0 ∷ 0 ∷ 0 ∷ 0 ∷ 0 ∷ 0 ∷ 0 ∷ []

counted-IsBytes : IsBytes counted
counted-IsBytes = ground arith

zeros-IsBytes : IsBytes zeros
zeros-IsBytes = ground arith

create_provider_tool_identity-faithful_example :
    (i : ProviderToolIdentity) × (i' : ProviderToolIdentity) × (create_provider_tool_identity
        (some counted)
      ≡ ok i)
    × (create_provider_tool_identity (some zeros) ≡ ok i')
    × (parse_provider_tool_id (string i.tool_public_id) ≡ some i.tool_public_id)
    × (i.tool_public_id ≡ i'.tool_public_id → counted ≡ zeros)
create_provider_tool_identity-faithful_example =
    create_provider_tool_identity-faithful counted zeros counted-IsBytes zeros-IsBytes refl refl
