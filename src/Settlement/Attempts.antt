-- ===== src/Settlement/Attempts.antt =====
-- packages/backend/convex/riskscan_settlement_attempts.ts: the recording of the first settlement attempt of
-- a risk scan. A mutation of the database is one transaction, so it is one step. The database is the
-- record `Database`: a document is the object that is read back of it, with its `_id`; the service's
-- own `_creationTime` is never looked at. `identifier` stands for the ids that the service gives.
use tool.Common.{
  ℕ, Bool, false, not, ◌&&◌, Option, none, some, List, [], ◌∷◌, ◌++◌, length, if◌then◌else◌, Result,
  ok, err, Error, range_error,
}
use tool.Common.Int.{ℤ, eqb_ℤ}
use tool.Common.Text.{Text, codes, ◌===◌}
use tool.Js.{Value, undefined, string, bigint, object, Object, field_value, object_literal}
use tool.Eligibility.{is_text}
use tool.Settlement.{RiskScanSettlementAttemptCandidateDocument, admit_risk_scan_settlement_attempt}

pub record Database : Type 0 where
  pub requests : Text → Option Object
  pub attempts : List Object

pub record Arguments : Type 0 where
  pub request_id : Text
  pub idempotency_key_hash : Text
  pub network : Text
  pub candidate_settlement_ref : Text
  pub created_at : ℤ
  pub updated_at : ℤ

pub data Recorded : Type 0 where
  created : (attempt_id : Text) → Recorded
  replayed : (attempt_id : Text) → Recorded

abbrev pub ineligible : Error
ineligible = range_error "RiskScan request is not eligible for a settlement attempt"

abbrev pub conflict : Error
conflict = range_error "RiskScan settlement attempt conflicts with a different durable attempt"

-- The document that is inserted: the candidate, the request and its public id.
pub record Attempt : Type 0 where
  pub public_id : Text
  pub request_id : Text
  pub candidate : RiskScanSettlementAttemptCandidateDocument

abbrev pub settlement : Text
settlement = codes "risk_scan_settlement"

abbrev pub pending : Text
pending = codes "pending_reconciliation"

unfoldable pub document : Text → Attempt → List (Text × Value)
document id a =
    (codes "_id", string id)
    ∷ (codes "publicId", string a.public_id)
    ∷ (codes "requestId", string a.request_id)
    ∷ (codes "operation", string settlement)
    ∷ (codes "idempotencyKeyHash", string (a.candidate).idempotency_key_hash)
    ∷ (codes "network", string (a.candidate).network)
    ∷ (codes "state", string pending)
    ∷ (codes "candidateSettlementRef", string (a.candidate).candidate_settlement_ref)
    ∷ (codes "nextReconciliationAt", bigint (a.candidate).next_reconciliation_at)
    ∷ (codes "createdAt", bigint (a.candidate).created_at)
    ∷ (codes "updatedAt", bigint (a.candidate).updated_at)
    ∷ []

-- `readOwnEnumerableDataProperty`
unfoldable pub read_property : Object → Text → Value
unfolding field_value
read_property o k = elim (field_value o k) [ none ↦ undefined | some v ↦ v ]

abbrev pub is_plain : Object → Bool
is_plain o = elim o.is_array [ none ↦ false | some array ↦ not array ]

abbrev pub text_of : Value → Option Text
text_of (string s) = some s
text_of _ = none

-- The public id of a request that waits for its payment.
unfoldable pub read_eligible_risk_scan_request : Option Object → Option Text
unfolding read_property ◌===◌
read_eligible_risk_scan_request none = none
read_eligible_risk_scan_request (some o) =
    if is_plain o && is_text (codes "payment_required") (read_property o (codes "state"))
    then text_of (read_property o (codes "publicId"))
    else none

abbrev is_bigint : ℤ → Value → Bool
is_bigint z (bigint y) = eqb_ℤ y z
is_bigint z _ = false

-- A property that is missing equals no property of the document.
unfoldable pub matches_initial_settlement_attempt : Object → Attempt → Bool
unfolding read_property ◌===◌
matches_initial_settlement_attempt o a =
    is_text a.public_id (read_property o (codes "publicId"))
    && is_text a.request_id (read_property o (codes "requestId"))
    && is_text settlement (read_property o (codes "operation"))
    && is_text (a.candidate).idempotency_key_hash (read_property o (codes "idempotencyKeyHash"))
    && is_text (a.candidate).network (read_property o (codes "network"))
    && is_text pending (read_property o (codes "state"))
    && is_text (a.candidate).candidate_settlement_ref
        (read_property o (codes "candidateSettlementRef"))
    && is_bigint (a.candidate).next_reconciliation_at
        (read_property o (codes "nextReconciliationAt"))
    && is_bigint (a.candidate).created_at (read_property o (codes "createdAt"))
    && is_bigint (a.candidate).updated_at (read_property o (codes "updatedAt"))

-- `isOpaqueAttemptId`
abbrev opaque_attempt_id : Value → Option Text
opaque_attempt_id (string []) = none
opaque_attempt_id (string (c ∷ s)) = some (c ∷ s)
opaque_attempt_id _ = none

-- The id of a stored attempt that is the one to be recorded.
unfoldable pub read_stored_settlement_attempt : Object → Attempt → Option Text
unfolding read_property matches_initial_settlement_attempt
read_stored_settlement_attempt o a =
    if is_plain o && matches_initial_settlement_attempt o a
    then opaque_attempt_id (read_property o (codes "_id"))
    else none

-- The index `by_idempotency_scope_and_key`.
unfoldable pub with_key : Text → List Object → List Object
unfolding read_property ◌===◌
with_key hash [] = []
with_key hash (o ∷ os) =
    let rest = with_key hash os in
    if is_text settlement (read_property o (codes "operation"))
      && is_text hash (read_property o (codes "idempotencyKeyHash"))
    then o ∷ rest
    else rest

abbrev argument_object : Arguments → Object
argument_object a = object_literal (
    (codes "idempotencyKeyHash", string a.idempotency_key_hash)
    ∷ (codes "network", string a.network)
    ∷ (codes "candidateSettlementRef", string a.candidate_settlement_ref)
    ∷ (codes "createdAt", bigint a.created_at)
    ∷ (codes "updatedAt", bigint a.updated_at)
    ∷ [])

unfoldable pub admitted : Arguments → Result RiskScanSettlementAttemptCandidateDocument
unfolding admit_risk_scan_settlement_attempt object_literal
admitted a = admit_risk_scan_settlement_attempt (λ r. argument_object a) (object 0)

module _ (identifier : ℕ → Text) where
  unfoldable pub insert_attempt : Database → Attempt → Database
  unfolding document object_literal
  insert_attempt db a = record db {
    attempts = db.attempts ++ (object_literal (document (identifier (length db.attempts)) a) ∷ []);
  }

  -- What follows the lookup by the key.
  unfoldable pub record_attempt : Database → Attempt → List Object → Database × Result Recorded
  unfolding insert_attempt read_stored_settlement_attempt
  record_attempt db a [] = (insert_attempt db a, ok (created (identifier (length db.attempts))))
  record_attempt db a (o ∷ []) = (
    db,
    elim (read_stored_settlement_attempt o a) [ none ↦ err conflict | some id ↦ ok (replayed id) ],
  )
  record_attempt db a _ = (db, err conflict)

  -- What follows the reading of the request.
  unfoldable pub record_eligible :
      Database
      → Arguments
      → RiskScanSettlementAttemptCandidateDocument
      → Option Text
      → Database × Result Recorded
  unfolding with_key record_attempt
  record_eligible db args candidate none = (db, err ineligible)
  record_eligible db args candidate (some public_id) =
      record_attempt db
        (record { public_id = public_id; request_id = args.request_id; candidate = candidate })
        (with_key candidate.idempotency_key_hash db.attempts)

  -- What follows the admission.
  unfoldable pub record_admitted :
      Database
      → Arguments
      → Result RiskScanSettlementAttemptCandidateDocument
      → Database × Result Recorded
  unfolding read_eligible_risk_scan_request record_eligible
  record_admitted db args (err e) = (db, err e)
  record_admitted db args (ok candidate) =
      record_eligible db args candidate
        (read_eligible_risk_scan_request (db.requests args.request_id))

  unfoldable pub record_initial_risk_scan_settlement_attempt :
      Database → Arguments → Database × Result Recorded
  unfolding admitted record_admitted
  record_initial_risk_scan_settlement_attempt db args = record_admitted db args (admitted args)
