-- ===== src/RiskScan.antt =====
-- packages/core/src/risk-scan.ts: a risk scan from its request to its result. The module remembers
-- which objects it has issued: the payment requirements, the pending payments, the verified
-- settlements and the bound evidence, the last with the settlement that it was bound to.
pub mod Tests
pub mod Binding
pub mod Preservation
pub mod Completion
pub mod Quick
pub mod Disclosure
use tool.Common.{
  ℕ, Bool, true, false, not, ◌&&◌, Option, none, some, List, [], ◌∷◌, length, ltb, ◌==◌,
  if◌then◌else◌, Result, ok, err, Error, type_error, range_error, ◌>>=◌, ◌>>◌, throw_if, String,
}
use Prim.Native.String.{◌++◌}
use tool.Common.Text.{Text, ◌===◌, trim}
use tool.Js.{Value, string}
use tool.Registry.{Registry, empty, issue, get}

pub record RiskScanRequestInput : Type 0 where
  pub request_ref : Value
  pub subject_ref : Value
  pub context : Value

pub record RiskScanRequest : Type 0 where
  pub request_ref : Text
  pub subject_ref : Text
  pub context : Text

pub record RiskScanVerifiedSettlement : Type 0 where
  pub request : RiskScanRequest
  pub settlement_ref : Text

pub record RiskScanBoundReceiptEvidence : Type 0 where
  pub request_ref : Text
  pub settlement_ref : Text
  pub receipt_ref : Text
  pub evidence_ref : Text

pub record RiskScanAssessmentResult : Type 0 where
  pub result_ref : Text
  pub salient_reasons : List Text
  pub limitations : List Text

-- The states that are plain results, without identity.
pub data RiskScanOutcome : Type 0 where
  unavailable payment_failed : RiskScanRequest → (reason : Text) → RiskScanOutcome
  execution_failed : RiskScanVerifiedSettlement → (reason : Text) → RiskScanOutcome
  completed :
      RiskScanVerifiedSettlement
      → RiskScanAssessmentResult
      → (receipt_ref evidence_ref : Text) → RiskScanOutcome

-- What is passed as a state or an artifact: an object by its kind and identity, or anything else.
pub data Ref : Type 0 where
  other : Ref
  payment_required payment_pending settlement evidence : ℕ → Ref

pub record Store : Type 0 where
  pub required : Registry RiskScanRequest
  pub pending : Registry RiskScanRequest
  pub settlements : Registry RiskScanVerifiedSettlement
  pub evidences : Registry (RiskScanBoundReceiptEvidence × ℕ)

abbrev pub new_store : Store
new_store = record { required = empty; pending = empty; settlements = empty; evidences = empty }

-- A maximum length, and its decimal text in the message.
pub record Maximum : Type 0 where
  pub characters : ℕ
  pub printed : String

abbrev pub exceeds : Maximum → ℕ → Bool
exceeds most n = ltb most.characters n

unfoldable pub required_trimmed_string : Value → String → Option Maximum → Result Text
unfolding trim
required_trimmed_string (string value) field none =
    if length (trim value) == 0
    then err (range_error (field ++ " must not be blank"))
    else ok (trim value)
required_trimmed_string (string value) field (some most) =
    if length (trim value) == 0
    then err (range_error (field ++ " must not be blank"))
    else if exceeds most (length (trim value))
    then err (range_error (field ++ " must not exceed " ++ most.printed ++ " characters"))
    else ok (trim value)
required_trimmed_string _ field most = err (type_error (field ++ " must be a string"))

unfoldable pub trim_all : List Value → String → Result (List Text)
unfolding required_trimmed_string
trim_all [] field = ok []
trim_all (v ∷ vs) field = do
  t ← required_trimmed_string v field none
  ts ← trim_all vs field
  ok (t ∷ ts)

-- `none` is a value that is no array; an array has no holes.
unfoldable pub required_trimmed_strings : Option (List Value) → String → Result (List Text)
unfolding trim_all
required_trimmed_strings none field =
    err (range_error (field ++ " must contain at least one statement"))
required_trimmed_strings (some []) field =
    err (range_error (field ++ " must contain at least one statement"))
required_trimmed_strings (some (v ∷ vs)) field = trim_all (v ∷ vs) field

abbrev pub max_request_ref : Maximum
max_request_ref = record { characters = 96; printed = "96" }

abbrev pub max_subject_ref : Maximum
max_subject_ref = record { characters = 160; printed = "160" }

abbrev pub max_context : Maximum
max_context = record { characters = 280; printed = "280" }

unfoldable pub validate_risk_scan_request : RiskScanRequestInput → Result RiskScanRequest
unfolding required_trimmed_string
validate_risk_scan_request input = do
  request_ref ← required_trimmed_string input.request_ref "requestRef" (some max_request_ref)
  subject_ref ← required_trimmed_string input.subject_ref "subjectRef" (some max_subject_ref)
  context ← required_trimmed_string input.context "context" (some max_context)
  ok (record { request_ref = request_ref; subject_ref = subject_ref; context = context })

unfoldable pub start_risk_scan_request : Store → RiskScanRequestInput → Result (Store × Ref)
start_risk_scan_request s input = do
  request ← validate_risk_scan_request input
  let (required, r) = issue request s.required
  ok (record s { required = required }, payment_required r)

abbrev issued_or {ℓ} : {A : Type ℓ} → String → Option A → Result A
issued_or message none = err (type_error message)
issued_or message (some a) = ok a

unfoldable pub require_issued_payment_required : Store → Ref → Result RiskScanRequest
require_issued_payment_required s (payment_required r) =
    issued_or "an issued payment requirement is required" (get s.required r)
require_issued_payment_required s _ = err (type_error "an issued payment requirement is required")

unfoldable pub require_issued_payment_pending : Store → Ref → Result RiskScanRequest
require_issued_payment_pending s (payment_pending r) =
    issued_or "an issued payment pending state is required" (get s.pending r)
require_issued_payment_pending s _ = err (type_error "an issued payment pending state is required")

unfoldable pub require_issued_payment_state : Store → Ref → Result RiskScanRequest
require_issued_payment_state s (payment_required r) =
    issued_or "an issued payment state is required" (get s.required r)
require_issued_payment_state s (payment_pending r) =
    issued_or "an issued payment state is required" (get s.pending r)
require_issued_payment_state s _ = err (type_error "an issued payment state is required")

unfoldable pub mark_risk_scan_unavailable : Store → Ref → Value → Result RiskScanOutcome
mark_risk_scan_unavailable s state reason = do
  request ← require_issued_payment_required s state
  text ← required_trimmed_string reason "reason" none
  ok (unavailable request text)

unfoldable pub mark_risk_scan_payment_pending : Store → Ref → Result (Store × Ref)
mark_risk_scan_payment_pending s state = do
  request ← require_issued_payment_required s state
  let (pending, r) = issue request s.pending
  ok (record s { pending = pending }, payment_pending r)

unfoldable pub mark_risk_scan_payment_failed : Store → Ref → Value → Result RiskScanOutcome
mark_risk_scan_payment_failed s state reason = do
  request ← require_issued_payment_state s state
  text ← required_trimmed_string reason "reason" none
  ok (payment_failed request text)

unfoldable pub create_risk_scan_verified_settlement :
    Store → Ref → (request_ref settlement_ref : Value) → Result (Store × Ref)
create_risk_scan_verified_settlement s state request_ref settlement_ref = do
  pending ← require_issued_payment_pending s state
  correlated ← required_trimmed_string request_ref "requestRef" none
  throw_if (not (correlated === pending.request_ref))
      (range_error "requestRef must match the payment state")
  settled ← required_trimmed_string settlement_ref "settlementRef" none
  let (settlements, r) =
      issue (record { request = pending; settlement_ref = settled }) s.settlements
  ok (record s { settlements = settlements }, settlement r)

unfoldable pub require_verified_settlement : Store → Ref → Result (ℕ × RiskScanVerifiedSettlement)
require_verified_settlement s (settlement r) = do
  v ← issued_or "a verified settlement correlation is required" (get s.settlements r)
  ok (r, v)
require_verified_settlement s _ = err (type_error "a verified settlement correlation is required")

unfoldable pub bind_risk_scan_receipt_evidence :
    Store → Ref → (receipt_ref evidence_ref : Value) → Result (Store × Ref)
bind_risk_scan_receipt_evidence s state receipt_ref evidence_ref = do
  (k, verified) ← require_verified_settlement s state
  receipt ← required_trimmed_string receipt_ref "receiptRef" none
  proof ← required_trimmed_string evidence_ref "evidenceRef" none
  let artifacts : RiskScanBoundReceiptEvidence = record {
    request_ref = (verified.request).request_ref;
    settlement_ref = verified.settlement_ref;
    receipt_ref = receipt;
    evidence_ref = proof;
  }
  let (evidences, r) = issue (artifacts, k) s.evidences
  ok (record s { evidences = evidences }, evidence r)

unfoldable pub mark_risk_scan_execution_failed : Store → Ref → Value → Result RiskScanOutcome
mark_risk_scan_execution_failed s state reason = do
  (k, verified) ← require_verified_settlement s state
  text ← required_trimmed_string reason "reason" none
  ok (execution_failed verified text)

-- The evidence must be bound, and to the very settlement at hand.
unfoldable pub require_bound_evidence : Store → Ref → ℕ → Result RiskScanBoundReceiptEvidence
require_bound_evidence s (evidence r) k = do
  (artifacts, bound) ←
      issued_or "a bound receipt and evidence artifact is required" (get s.evidences r)
  if bound == k
      then ok artifacts
      else err (type_error "a bound receipt and evidence artifact is required")
require_bound_evidence s _ k = err (type_error "a bound receipt and evidence artifact is required")

pub record RiskScanAssessmentCompletionInput : Type 0 where
  pub result_ref : Value
  pub salient_reasons : Option (List Value)
  pub limitations : Option (List Value)

unfoldable pub complete_risk_scan_request :
    Store → Ref → Ref → RiskScanAssessmentCompletionInput → Result RiskScanOutcome
complete_risk_scan_request s state artifacts completion = do
  (k, verified) ← require_verified_settlement s state
  bound ← require_bound_evidence s artifacts k
  result_ref ← required_trimmed_string completion.result_ref "resultRef" none
  salient_reasons ← required_trimmed_strings completion.salient_reasons "salientReasons"
  limitations ← required_trimmed_strings completion.limitations "limitations"
  ok (
      completed verified
        (record {
          result_ref = result_ref;
          salient_reasons = salient_reasons;
          limitations = limitations;
        })
        bound.receipt_ref bound.evidence_ref)
