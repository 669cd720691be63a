-- ===== src/RiskScan/Tests.antt =====
-- A risk scan from its request to its result, and a quick assessment.
use tool.Common.{List, [], ◌∷◌, some, ok, ◌≡◌, refl}
use tool.Common.Text.{Text, codes, ◌===◌}
use tool.Js.{Value, string, boolean, Key, name, includes}
use tool.Registry.{find}
use tool.RiskScan.{
  RiskScanRequestInput, RiskScanRequest, RiskScanOutcome, RiskScanAssessmentCompletionInput,
  payment_required, payment_pending, settlement, evidence, new_store, complete_risk_scan_request,
  completed, require_verified_settlement, bind_risk_scan_receipt_evidence,
  create_risk_scan_verified_settlement, require_issued_payment_pending,
  mark_risk_scan_payment_pending, require_issued_payment_required, require_bound_evidence,
  required_trimmed_strings, validate_risk_scan_request, start_risk_scan_request,
}
use tool.RiskScan.Binding.{Call, start, pay, settle, bind, run}
use tool.RiskScan.Completion.{IsCompleted, complete-IsCompleted}
use tool.RiskScan.Quick.{
  Declarations, an_object, RiskScanQuickDeclarations, RiskScanQuickResult, needs_disclosure,
  quick_limitation, assess_risk_scan_quick,
}
use tool.RiskScan.Disclosure.{IsDeclared, IsDisclosed, assess_risk_scan_quick-IsDisclosed}

abbrev input : RiskScanRequestInput
input = record {
  request_ref = string (codes " r1 ");
  subject_ref = string (codes "s");
  context = string (codes "c");
}

abbrev calls : List Call
calls =
    start input
    ∷ pay (payment_required 0)
    ∷ settle (payment_pending 0) (string (codes "r1")) (string (codes "t"))
    ∷ bind (settlement 0) (string (codes "receipt")) (string (codes "proof"))
    ∷ []

abbrev completion : RiskScanAssessmentCompletionInput
completion = record {
  result_ref = string (codes "result");
  salient_reasons = some (string (codes "a reason") ∷ []);
  limitations = some (string (codes "a limit") ∷ []);
}

abbrev request : RiskScanRequest
request = record { request_ref = codes "r1"; subject_ref = codes "s"; context = codes "c" }

abbrev outcome : RiskScanOutcome
outcome =
    completed (record { request = request; settlement_ref = codes "t" })
      (record {
        result_ref = codes "result";
        salient_reasons = codes "a reason" ∷ [];
        limitations = codes "a limit" ∷ [];
      })
      (codes "receipt") (codes "proof")

scan_is_completed :
    complete_risk_scan_request (run new_store calls) (settlement 0) (evidence 0) completion
    ≡ ok outcome
unfolding complete_risk_scan_request run require_verified_settlement find
    bind_risk_scan_receipt_evidence create_risk_scan_verified_settlement
    require_issued_payment_pending mark_risk_scan_payment_pending require_issued_payment_required
    start_risk_scan_request validate_risk_scan_request ◌===◌ require_bound_evidence
    required_trimmed_strings
scan_is_completed = refl

complete-IsCompleted_example : IsCompleted (run new_store calls) (settlement 0) (evidence 0) outcome
complete-IsCompleted_example =
    complete-IsCompleted calls (settlement 0) (evidence 0) completion outcome scan_is_completed

abbrev declared_values : Text → Value
declared_values k = boolean (includes (codes "identity" ∷ codes "evidence" ∷ []) k)

abbrev declarations : Declarations
declarations =
    an_object
      (name (codes "identity")
        ∷ name (codes "pricing")
        ∷ name (codes "limitations")
        ∷ name (codes "evidence")
        ∷ [])
      declared_values

abbrev report : RiskScanQuickResult
report = record {
  request = request;
  disposition = needs_disclosure;
  reasons = codes "pricing disclosure" ∷ codes "limitations disclosure" ∷ [];
  limitations = quick_limitation ∷ [];
}

declarations_are_assessed : assess_risk_scan_quick input declarations ≡ ok report
unfolding assess_risk_scan_quick includes
declarations_are_assessed = refl

assess_risk_scan_quick-IsDisclosed_example :
    (validate_risk_scan_request input ≡ ok request)
    × ((keys : List Key) × (read : Text → Value) × (ds : RiskScanQuickDeclarations) × (declarations
          ≡ an_object keys read)
        × IsDeclared keys read ds
        × IsDisclosed ds report)
assess_risk_scan_quick-IsDisclosed_example =
    assess_risk_scan_quick-IsDisclosed input declarations report declarations_are_assessed
