-- ===== src/Payload/Create.antt =====
-- packages/core/src/offering-create-payload.ts: the payload that creates an offering.
pub mod Sound
use tool.Common.{
  ℕ, zero, suc, Bool, true, false, not, ◌&&◌, ◌||◌, Option, none, some, List, [], ◌∷◌, ◌++◌, length,
  ltb, if◌then◌else◌, Result, ok, err, Error, type_error, ◌>>=◌, ◌>>◌, throw_if,
}
use tool.Common.Int.{ℤ, pos, negsuc, ltb_ℤ}
use tool.Common.Text.{Text, codes}
use tool.Js.{
  Number, integral, Value, string, number, object, Heap, snapshot_exact_record, object_literal,
}
use tool.Arrays.{array_literal}
use tool.Value.{parse_tinybar}
use tool.Value.Decimal.{decimal}
use tool.Economics.{OfferingTerms}
use tool.Requirements.{Host, canonicalize_requirements, utf8_encode}
use tool.Definition.{OfferingDefinition, is_number, parse_offering_definition}
use tool.Payload.{or_rejected, parse_public_id, parse_version, parse_idempotency_key, parse_expiry}
use tool.Payload.Narrative.{OfferingNarrative, rejected, parse_narrative}

pub record OfferingCreatePayload : Type 0 where
  pub schema_version : ℕ
  pub offering_public_id : Text
  pub offering_version : ℕ
  pub subject_public_id : Text
  pub definition : OfferingDefinition
  pub narrative : OfferingNarrative
  pub advertised_quick_price_tinybars : ℤ
  pub advertised_standard_price_tinybars : ℤ
  pub idempotency_key : Text
  pub expires_at : Text

abbrev pub payload_fields : List Text
payload_fields =
    codes "schemaVersion"
    ∷ codes "offeringPublicId"
    ∷ codes "offeringVersion"
    ∷ codes "subjectPublicId"
    ∷ codes "definition"
    ∷ codes "narrative"
    ∷ codes "advertisedQuickPriceTinybars"
    ∷ codes "advertisedStandardPriceTinybars"
    ∷ codes "idempotencyKey"
    ∷ codes "expiresAt"
    ∷ []

abbrev pub within_prices : Option ℤ → Result ℤ
within_prices none = err rejected
within_prices (some price) =
    if ltb_ℤ price (pos 1) || ltb_ℤ (pos 10000000) price then err rejected else ok price

unfoldable pub parse_price : Value → Result ℤ
unfolding parse_tinybar
parse_price (string value) =
    if ltb 8 (length value) then err rejected else within_prices (parse_tinybar (string value))
parse_price _ = err rejected

unfoldable pub payload_of : Heap → List Value → Result OfferingCreatePayload
unfolding parse_public_id parse_version parse_offering_definition parse_narrative parse_price
    parse_idempotency_key parse_expiry
payload_of h
      (schema ∷ offering ∷ version ∷ subject ∷ definition_input ∷ narrative_input ∷ quick ∷ standard
        ∷ key ∷ expiry ∷ []) =
    do
      throw_if (not (is_number 1 schema)) rejected
      offering_public_id ← parse_public_id rejected offering
      offering_version ← parse_version rejected version
      subject_public_id ← parse_public_id rejected subject
      definition ← parse_offering_definition h definition_input
      narrative ← parse_narrative h narrative_input
      quick_price ← parse_price quick
      standard_price ← parse_price standard
      idempotency_key ← parse_idempotency_key rejected key
      expires_at ← parse_expiry rejected expiry
      ok (record {
        schema_version = 1;
        offering_public_id = offering_public_id;
        offering_version = offering_version;
        subject_public_id = subject_public_id;
        definition = definition;
        narrative = narrative;
        advertised_quick_price_tinybars = quick_price;
        advertised_standard_price_tinybars = standard_price;
        idempotency_key = idempotency_key;
        expires_at = expires_at;
      })
payload_of h _ = err rejected

unfoldable pub parse_offering_create_payload : Heap → Value → Result OfferingCreatePayload
unfolding snapshot_exact_record payload_of
parse_offering_create_payload h input = elim (snapshot_exact_record h input payload_fields) [
  | none ↦ err rejected
  | some values ↦ payload_of h values
]

-- `toString()` of a `bigint`.
unfoldable pub integer_text : ℤ → Text
unfolding decimal
integer_text (pos n) = decimal n
integer_text (negsuc n) = b'-' ∷ decimal (suc n)

abbrev amount : ℤ → Value
amount z = string (integer_text z)

abbrev number_of : ℕ → Value
number_of n = number (integral (pos n))

unfoldable pub terms_projection : OfferingTerms → List (Text × Value)
unfolding integer_text
terms_projection t =
    (codes "version", string t.version)
    ∷ (codes "fundingTargetTinybars", amount t.funding_target_tinybars)
    ∷ (codes "noteUnitPriceTinybars", amount t.note_unit_price_tinybars)
    ∷ (codes "maximumNoteUnits", amount t.maximum_note_units)
    ∷ (codes "minimumPurchaseUnits", amount t.minimum_purchase_units)
    ∷ (codes "reserveShareBps", amount t.reserve_share_bps)
    ∷ (codes "issuerShareBps", amount t.issuer_share_bps)
    ∷ (codes "platformFeeBps", amount t.platform_fee_bps)
    ∷ (codes "payoutCapTinybars", amount t.payout_cap_tinybars)
    ∷ []

unfoldable pub definition_projection : OfferingDefinition → List (Text × Value)
definition_projection d =
    (codes "schemaVersion", number_of d.schema_version)
    ∷ (codes "terms", object 2)
    ∷ (codes "maturityAt", string d.maturity_at)
    ∷ (codes "qualifyingResource", string d.qualifying_resource)
    ∷ []

unfoldable pub narrative_projection : OfferingNarrative → List (Text × Value)
narrative_projection n =
    (codes "title", string n.title)
    ∷ (codes "customerProblem", string n.customer_problem)
    ∷ (codes "customerUseCases", object 4)
    ∷ (codes "useOfFunds", object 5)
    ∷ (codes "risks", object 6)
    ∷ []

unfoldable pub projection : OfferingCreatePayload → List (Text × Value)
unfolding integer_text
projection p =
    (codes "schemaVersion", number_of p.schema_version)
    ∷ (codes "offeringPublicId", string p.offering_public_id)
    ∷ (codes "offeringVersion", number_of p.offering_version)
    ∷ (codes "subjectPublicId", string p.subject_public_id)
    ∷ (codes "definition", object 1)
    ∷ (codes "narrative", object 3)
    ∷ (codes "advertisedQuickPriceTinybars", amount p.advertised_quick_price_tinybars)
    ∷ (codes "advertisedStandardPriceTinybars", amount p.advertised_standard_price_tinybars)
    ∷ (codes "idempotencyKey", string p.idempotency_key)
    ∷ (codes "expiresAt", string p.expires_at)
    ∷ []

-- The object literal at 0, and those inside it.
unfoldable pub projection_heap : OfferingCreatePayload → Heap
unfolding projection definition_projection terms_projection narrative_projection object_literal
    array_literal
projection_heap p zero = object_literal (projection p)
projection_heap p (suc zero) = object_literal (definition_projection p.definition)
projection_heap p (suc (suc zero)) = object_literal (terms_projection ((p.definition).terms))
projection_heap p (suc (suc (suc zero))) = object_literal (narrative_projection p.narrative)
projection_heap p (suc (suc (suc (suc zero)))) = array_literal ((p.narrative).customer_use_cases)
projection_heap p (suc (suc (suc (suc (suc zero))))) = array_literal ((p.narrative).use_of_funds)
projection_heap p (suc (suc (suc (suc (suc (suc r)))))) = array_literal ((p.narrative).risks)

unfoldable pub canonical_offering_create_payload_bytes :
    Host → OfferingCreatePayload → Result (List ℕ)
unfolding canonicalize_requirements projection_heap utf8_encode
canonical_offering_create_payload_bytes host payload = do
  t ← canonicalize_requirements host (projection_heap payload) (object 0)
  ok (utf8_encode t)
