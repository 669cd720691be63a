-- ===== src/Tools.antt =====
-- packages/core/src/provider-tool-identity.ts: the identities of a tool, from 16 random bytes.
pub mod Identity
mod Tests
use tool.Common.{
  ℕ, ◌/◌, ◌%◌, Bool, true, false, not, ◌&&◌, Option, none, some, List, [], ◌∷◌, ◌++◌, length, ◌==◌,
  if◌then◌else◌, Result, ok, err, type_error,
}
use tool.Common.Text.{Text, codes}
use tool.Js.{Value, string}
use tool.Patterns.{prefixed_pattern}
use tool.Requirements.{hexadecimal}

pub record ProviderToolIdentity : Type 0 where
  pub tool_public_id : Text
  pub subject_public_id : Text
  pub offering_public_id : Text
  pub service_id : Text
  pub service_slug : Text

abbrev pub entropy_length : ℕ
entropy_length = 16

unfoldable pub tool_id_pattern : Text → Bool
unfolding prefixed_pattern
tool_id_pattern = prefixed_pattern (codes "tool_") 32

unfoldable pub parse_provider_tool_id : Value → Option Text
unfolding tool_id_pattern
parse_provider_tool_id (string value) = if tool_id_pattern value then some value else none
parse_provider_tool_id _ = none

-- The bytes of the entropy; `none` is a value that is no `Uint8Array`.
unfoldable pub create_provider_tool_identity : Option (List ℕ) → Result ProviderToolIdentity
unfolding hexadecimal
create_provider_tool_identity none =
    err (type_error "provider tool entropy must be exactly 16 bytes")
create_provider_tool_identity (some entropy) =
    if not (length entropy == entropy_length)
    then err (type_error "provider tool entropy must be exactly 16 bytes")
    else ok (record {
      tool_public_id = codes "tool_" ++ hexadecimal entropy;
      subject_public_id = codes "tool_" ++ hexadecimal entropy;
      offering_public_id = codes "offering_" ++ hexadecimal entropy;
      service_id = codes "tool_" ++ hexadecimal entropy;
      service_slug = codes "tool-" ++ hexadecimal entropy;
    })
