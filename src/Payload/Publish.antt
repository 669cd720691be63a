-- ===== src/Payload/Publish.antt =====
-- packages/core/src/directory-publish-payload.ts: the payload that publishes a directory record.
pub mod Sound
use tool.Common.{
  ℕ, suc, Bool, true, false, not, ◌&&◌, ◌||◌, Option, none, some, List, [], ◌∷◌, map, ◌==◌, length,
  if◌then◌else◌, Result, ok, err, Error, type_error, ◌>>=◌, ◌>>◌, throw_if, ◌++◌, zero,
}
use tool.Common.Int.{pos}
use tool.Common.Text.{Text, codes, ◌===◌}
use tool.Js.{
  Number, integral, Value, string, number, object, Heap, Object, Key, name, Prototype,
  array_prototype, data_property, snapshot_exact_record, snapshot_optional, object_literal,
}
use tool.Arrays.{array_literal}
use tool.Requirements.{Host, canonicalize_requirements, utf8_encode}
use tool.Eligibility.{is_text}
use tool.Definition.{is_number}
use tool.Payload.{or_rejected, parse_public_id, parse_version, parse_idempotency_key, parse_expiry}
use tool.Payload.Record
use tool.Payload.Record.{
  Url, DirectoryTier, quick, standard, AgentDirectoryRecordCandidate, required_fields,
  optional_field, record_of,
}

pub record DirectoryPublishPayload : Type 0 where
  pub schema_version : ℕ
  pub offering_public_id : Text
  pub offering_version : ℕ
  pub directory_version : ℕ
  pub candidate : AgentDirectoryRecordCandidate
  pub idempotency_key : Text
  pub expires_at : Text

abbrev pub payload_fields : List Text
payload_fields =
    codes "schemaVersion"
    ∷ codes "offeringPublicId"
    ∷ codes "offeringVersion"
    ∷ codes "directoryVersion"
    ∷ codes "record"
    ∷ codes "idempotencyKey"
    ∷ codes "expiresAt"
    ∷ []

abbrev pub rejected : Error
rejected = type_error "invalid directory publish payload"

-- The values at the places 6 and 15 of the snapshot.
abbrev pub endpoint_is : Text → List Value → Bool
endpoint_is t (_ ∷ _ ∷ _ ∷ _ ∷ _ ∷ _ ∷ endpoint ∷ rest) = is_text t endpoint
endpoint_is t _ = false

abbrev pub web_url_is : Option Text → List Value → Bool
web_url_is (some t) (_ ∷ _ ∷ _ ∷ _ ∷ _ ∷ _ ∷ _ ∷ _ ∷ _ ∷ _ ∷ _ ∷ _ ∷ _ ∷ _ ∷ _ ∷ web ∷ []) =
    is_text t web
web_url_is _ _ = true

module _ (parse_href : Text → Option Url) where
  -- The candidate is read from an object that is rebuilt from the captured values, under the names of
  -- the same fields: its reading gives these values again, so they are read here as they are.
  unfoldable pub parse_record : Heap → Value → Result AgentDirectoryRecordCandidate
  unfolding snapshot_optional record_of ◌===◌
  parse_record h input = do
    snapshot ← or_rejected rejected (snapshot_optional h input required_fields optional_field)
    candidate ← record_of parse_href h snapshot
    throw_if
        (not (endpoint_is candidate.x402_endpoint snapshot)
          || not (web_url_is candidate.web_url snapshot))
        rejected
    ok candidate

  unfoldable pub payload_of : Heap → List Value → Result DirectoryPublishPayload
  unfolding parse_public_id parse_version parse_record parse_idempotency_key parse_expiry ◌===◌
  payload_of h (schema ∷ offering ∷ version ∷ directory ∷ record_input ∷ key ∷ expiry ∷ []) = do
    throw_if (not (is_number 1 schema)) rejected
    offering_public_id ← parse_public_id rejected offering
    offering_version ← parse_version rejected version
    candidate ← parse_record h record_input
    throw_if
        (not (candidate.offering_public_id === offering_public_id)
          || not (candidate.offering_version == offering_version))
        rejected
    directory_version ← parse_version rejected directory
    idempotency_key ← parse_idempotency_key rejected key
    expires_at ← parse_expiry rejected expiry
    ok (record {
      schema_version = 1;
      offering_public_id = offering_public_id;
      offering_version = offering_version;
      directory_version = directory_version;
      candidate = candidate;
      idempotency_key = idempotency_key;
      expires_at = expires_at;
    })
  payload_of h _ = err rejected

  unfoldable pub parse_directory_publish_payload : Heap → Value → Result DirectoryPublishPayload
  unfolding snapshot_exact_record payload_of
  parse_directory_publish_payload h input = elim (snapshot_exact_record h input payload_fields) [
    | none ↦ err rejected
    | some values ↦ payload_of h values
  ]

abbrev number_of : ℕ → Value
number_of n = number (integral (pos n))

abbrev tier_text : DirectoryTier → Text
tier_text quick = codes "quick"
tier_text standard = codes "standard"

abbrev tier_texts : List DirectoryTier → List Text
tier_texts [] = []
tier_texts (t ∷ ts) = tier_text t ∷ tier_texts ts

abbrev optional_entry : Option Text → List (Text × Value)
optional_entry none = []
optional_entry (some url) = (optional_field, string url) ∷ []

-- The object at 1 of the projection, with its arrays at 2 and 3.
unfoldable pub record_projection : AgentDirectoryRecordCandidate → List (Text × Value)
record_projection r =
    (codes "schemaVersion", number_of r.schema_version)
    ∷ (codes "serviceId", string r.service_id)
    ∷ (codes "serviceSlug", string r.service_slug)
    ∷ (codes "offeringPublicId", string r.offering_public_id)
    ∷ (codes "offeringVersion", number_of r.offering_version)
    ∷ (codes "capabilities", object 2)
    ∷ (codes "x402Endpoint", string r.x402_endpoint)
    ∷ (codes "paymentProtocol", string r.payment_protocol)
    ∷ (codes "paymentNetwork", string r.payment_network)
    ∷ (codes "asset", string r.asset)
    ∷ (codes "advertisedTiers", object 3)
    ∷ (codes "issuerRevenueAccount", string r.issuer_revenue_account)
    ∷ (codes "clearingAccount", string r.clearing_account)
    ∷ (codes "status", string r.status)
    ∷ (codes "publishedAt", string r.published_at)
    ∷ optional_entry r.web_url

unfoldable pub projection : DirectoryPublishPayload → List (Text × Value)
projection p =
    (codes "schemaVersion", number_of p.schema_version)
    ∷ (codes "offeringPublicId", string p.offering_public_id)
    ∷ (codes "offeringVersion", number_of p.offering_version)
    ∷ (codes "directoryVersion", number_of p.directory_version)
    ∷ (codes "record", object 1)
    ∷ (codes "idempotencyKey", string p.idempotency_key)
    ∷ (codes "expiresAt", string p.expires_at)
    ∷ []

unfoldable pub projection_heap : DirectoryPublishPayload → Heap
unfolding projection record_projection object_literal array_literal
projection_heap p zero = object_literal (projection p)
projection_heap p (suc zero) = object_literal (record_projection (p.candidate))
projection_heap p (suc (suc zero)) = array_literal ((p.candidate).capabilities)
projection_heap p (suc (suc (suc r))) = array_literal (tier_texts ((p.candidate).advertised_tiers))

unfoldable pub canonical_directory_publish_payload_bytes :
    Host → DirectoryPublishPayload → Result (List ℕ)
unfolding canonicalize_requirements projection_heap utf8_encode
canonical_directory_publish_payload_bytes host payload = do
  t ← canonicalize_requirements host (projection_heap payload) (object 0)
  ok (utf8_encode t)
