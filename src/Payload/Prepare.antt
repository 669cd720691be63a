-- ===== src/Payload/Prepare.antt =====
-- packages/core/src/external-prepare-payload.ts: the payload that prepares an external operation.
use tool.Common.{
  ℕ, not, ◌||◌, none, some, List, [], ◌∷◌, if◌then◌else◌, Result, ok, err, Error, type_error, ◌>>=◌,
  ◌>>◌, throw_if,
}
use tool.Common.Text.{Text, codes, ◌===◌}
use tool.Js.{Value, string, Heap, snapshot_exact_record}
use tool.Value.{parse_hedera_account_id}
use tool.Patterns.{hexadecimal_pattern, evm_address_pattern, parse_string}
use tool.Eligibility.{testnet, is_text}
use tool.Definition.{is_number}
use tool.Payload.{
  ExternalOperationKind, or_rejected, parse_operation_kind, parse_public_id, parse_idempotency_key,
  parse_expiry,
}

pub record ExternalPreparePayload : Type 0 where
  pub operation_kind : ExternalOperationKind
  pub subject_public_id : Text
  pub network : Text
  pub chain_id : ℕ
  pub expected_target : Text
  pub canonical_parameters_hash : Text
  pub idempotency_key : Text
  pub expires_at : Text

abbrev pub external_prepare_fields : List Text
external_prepare_fields =
    codes "operationKind"
    ∷ codes "subjectPublicId"
    ∷ codes "network"
    ∷ codes "chainId"
    ∷ codes "expectedTarget"
    ∷ codes "canonicalParametersHash"
    ∷ codes "idempotencyKey"
    ∷ codes "expiresAt"
    ∷ []

abbrev pub rejected : Error
rejected = type_error "invalid external prepare payload"

unfoldable pub parse_expected_target : Value → Result Text
unfolding evm_address_pattern parse_hedera_account_id
parse_expected_target (string value) =
    if evm_address_pattern value
    then ok value
    else or_rejected rejected (parse_hedera_account_id (string value))
parse_expected_target _ = err rejected

unfoldable pub payload_of : List Value → Result ExternalPreparePayload
unfolding parse_operation_kind parse_public_id parse_expected_target parse_string
    hexadecimal_pattern parse_idempotency_key parse_expiry ◌===◌
payload_of (kind ∷ subject ∷ network ∷ chain ∷ target ∷ hash ∷ key ∷ expiry ∷ []) = do
  operation_kind ← parse_operation_kind rejected kind
  subject_public_id ← parse_public_id rejected subject
  throw_if (not (is_text testnet network) || not (is_number 296 chain)) rejected
  expected_target ← parse_expected_target target
  canonical_parameters_hash ← parse_string rejected (hexadecimal_pattern 64) hash
  idempotency_key ← parse_idempotency_key rejected key
  expires_at ← parse_expiry rejected expiry
  ok (record {
    operation_kind = operation_kind;
    subject_public_id = subject_public_id;
    network = testnet;
    chain_id = 296;
    expected_target = expected_target;
    canonical_parameters_hash = canonical_parameters_hash;
    idempotency_key = idempotency_key;
    expires_at = expires_at;
  })
payload_of _ = err rejected

unfoldable pub parse_external_prepare_payload : Heap → Value → Result ExternalPreparePayload
unfolding snapshot_exact_record payload_of
parse_external_prepare_payload h input =
    elim (snapshot_exact_record h input external_prepare_fields) [
      | none ↦ err rejected
      | some values ↦ payload_of values
    ]
