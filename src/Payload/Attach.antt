-- ===== src/Payload/Attach.antt =====
-- packages/core/src/attach-candidate-payload.ts: the payload that attaches a candidate transaction.
pub mod RoundTrip
use tool.Common.{
  ℕ, Bool, true, false, not, ◌&&◌, ◌||◌, Option, none, some, List, [], ◌∷◌, length, take, drop, leb,
  ◌==◌, if◌then◌else◌, Result, ok, err, Error, type_error, ◌>>=◌, ◌>>◌, throw_if,
}
use tool.Common.Text.{Text, codes, ◌===◌}
use tool.Requirements.{Host, canonicalize_requirements, utf8_encode}
use tool.Common.Int.{pos}
use tool.Js.{integral, number, object, object_literal, Value, string, Heap, snapshot_optional}
use tool.Value.{canonical_integer, split_first, parse_hedera_transaction_id}
use tool.Patterns.{evm_address_pattern, digits_pattern}
use tool.Definition.{is_number}
use tool.Payload.{
  ExternalOperationKind, ats_create, kind_text, parse_operation_kind, parse_idempotency_key,
  parse_expiry,
}

pub record AttachCandidatePayload : Type 0 where
  pub schema_version : ℕ
  pub attempt_public_id : Text
  pub operation_kind : ExternalOperationKind
  pub candidate_transaction_id : Text
  pub candidate_evm_address : Option Text
  pub idempotency_key : Text
  pub expires_at : Text

abbrev pub required_fields : List Text
required_fields =
    codes "schemaVersion"
    ∷ codes "attemptPublicId"
    ∷ codes "operationKind"
    ∷ codes "candidateTransactionId"
    ∷ codes "idempotencyKey"
    ∷ codes "expiresAt"
    ∷ []

abbrev pub optional_field : Text
optional_field = codes "candidateEvmAddress"

abbrev pub rejected : Error
rejected = type_error "invalid attach candidate payload"

-- `^0\.0\.(?:0|[1-9][0-9]*)-(?:0|[1-9][0-9]*)-[0-9]{9}$`
unfoldable pub mirror_transaction_id_pattern : Text → Bool
unfolding split_first canonical_integer digits_pattern ◌===◌
mirror_transaction_id_pattern s =
    (take 4 s === codes "0.0.") && (elim (split_first b'-' (drop 4 s)) [
      | none ↦ false
      | some (account, later) ↦ elim (split_first b'-' later) [
        | none ↦ false
        | some (seconds, nanos) ↦
            canonical_integer account && canonical_integer seconds && digits_pattern 9 nanos
      ]
    ])

unfoldable pub parse_candidate_transaction_id : Value → Result Text
unfolding parse_hedera_transaction_id mirror_transaction_id_pattern
parse_candidate_transaction_id (string value) = elim (parse_hedera_transaction_id (string value)) [
  | some t ↦ ok t
  | none ↦ if mirror_transaction_id_pattern value then ok value else err rejected
]
parse_candidate_transaction_id _ = err rejected

abbrev pub is_ats_create : ExternalOperationKind → Bool
is_ats_create ats_create = true
is_ats_create _ = false

-- The address: there and well formed for the creation of a token, not there for any other operation.
unfoldable pub parse_evm_address : ExternalOperationKind → List Value → Result (Option Text)
unfolding evm_address_pattern
parse_evm_address kind (string address ∷ []) =
    if is_ats_create kind && evm_address_pattern address then ok (some address) else err rejected
parse_evm_address kind [] = if is_ats_create kind then err rejected else ok none
parse_evm_address kind _ = err rejected

unfoldable pub payload_of : List Value → Result AttachCandidatePayload
unfolding parse_operation_kind parse_idempotency_key parse_evm_address
    parse_candidate_transaction_id parse_expiry ◌===◌
payload_of (version ∷ attempt ∷ kind ∷ candidate ∷ key ∷ expiry ∷ address) = do
  throw_if (not (is_number 1 version)) rejected
  operation_kind ← parse_operation_kind rejected kind
  attempt_public_id ← parse_idempotency_key rejected attempt
  idempotency_key ← parse_idempotency_key rejected key
  throw_if (attempt_public_id === idempotency_key) rejected
  candidate_evm_address ← parse_evm_address operation_kind address
  candidate_transaction_id ← parse_candidate_transaction_id candidate
  expires_at ← parse_expiry rejected expiry
  ok (record {
    schema_version = 1;
    attempt_public_id = attempt_public_id;
    operation_kind = operation_kind;
    candidate_transaction_id = candidate_transaction_id;
    candidate_evm_address = candidate_evm_address;
    idempotency_key = idempotency_key;
    expires_at = expires_at;
  })
payload_of _ = err rejected

unfoldable pub parse_attach_candidate_payload : Heap → Value → Result AttachCandidatePayload
unfolding snapshot_optional payload_of
parse_attach_candidate_payload h input =
    elim (snapshot_optional h input required_fields optional_field) [
      | none ↦ err rejected
      | some values ↦ payload_of values
    ]

abbrev optional_entry : Option Text → List (Text × Value)
optional_entry none = []
optional_entry (some address) = (optional_field, string address) ∷ []

-- `projection`
unfoldable pub projection : AttachCandidatePayload → List (Text × Value)
unfolding kind_text
projection p =
    (codes "schemaVersion", number (integral (pos p.schema_version)))
    ∷ (codes "attemptPublicId", string p.attempt_public_id)
    ∷ (codes "operationKind", string (kind_text p.operation_kind))
    ∷ (codes "candidateTransactionId", string p.candidate_transaction_id)
    ∷ (codes "idempotencyKey", string p.idempotency_key)
    ∷ (codes "expiresAt", string p.expires_at)
    ∷ optional_entry p.candidate_evm_address

unfoldable pub canonical_attach_candidate_payload_bytes :
    Host → AttachCandidatePayload → Result (List ℕ)
unfolding canonicalize_requirements object_literal projection utf8_encode
canonical_attach_candidate_payload_bytes host payload = do
  t ← canonicalize_requirements host (λ r. object_literal (projection payload)) (object 0)
  ok (utf8_encode t)
