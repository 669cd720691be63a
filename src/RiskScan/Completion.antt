-- ===== src/RiskScan/Completion.antt =====
-- A completed risk scan rests on a verified settlement and on the evidence that was bound to it. See
-- `completeRiskScanRequest` of packages/core/src/risk-scan.ts.
use tool.Common.{ℕ, some, none, List, ok, ◌≡◌, arith, inl, inr, Result-cases, sym, ◌∙◌, ap}
use mathlib.Core.Path.{subst}
use tool.Registry.{get}
use tool.RiskScan.{
  RiskScanVerifiedSettlement, RiskScanBoundReceiptEvidence, RiskScanAssessmentResult,
  RiskScanAssessmentCompletionInput, RiskScanOutcome, completed, Ref, settlement, evidence, Store,
  new_store, complete_risk_scan_request, require_verified_settlement, require_bound_evidence,
  required_trimmed_string, required_trimmed_strings,
}
use tool.RiskScan.Preservation.{calls-Inv}
use tool.RiskScan.Binding.{Call, run, IsValid, new_store-Inv, settlement_issued, evidence_issued}

-- What a completed assessment rests on.
pub record IsCompleted (s : Store) (state artifacts : Ref) (o : RiskScanOutcome) : Type 0 where
  pub number : ℕ
  pub verified : RiskScanVerifiedSettlement
  pub result : RiskScanAssessmentResult
  pub evidence_bound : RiskScanBoundReceiptEvidence
  pub settlement_state : state ≡ settlement number
  pub issued_settlement : get s.settlements number ≡ some verified
  pub valid : IsValid verified.request
  pub receipt : ℕ
  pub artifacts_state : artifacts ≡ evidence receipt
  pub issued_evidence : get s.evidences receipt ≡ some (evidence_bound, number)
  pub same_request : evidence_bound.request_ref ≡ (verified.request).request_ref
  pub same_settlement : evidence_bound.settlement_ref ≡ verified.settlement_ref
  pub outcome : o ≡ completed verified result evidence_bound.receipt_ref evidence_bound.evidence_ref

some_same {ℓ} : {A : Type ℓ} {a b : A} → some a ≡ some b → a ≡ b
some_same {a} h = ap (λ o. elim o [ some x ↦ x | none ↦ a ]) h

-- A risk scan that is completed, after any sequence of calls, has a settlement that was issued, of a
-- request whose fields are of 1 to 96, 160 and 280 code units; its receipt and its evidence are those
-- of evidence that was bound to that very settlement and that names its request and its reference.
pub complete-IsCompleted :
    (calls : List Call) (state artifacts : Ref) (completion : RiskScanAssessmentCompletionInput)
    (o : RiskScanOutcome)
    → complete_risk_scan_request (run new_store calls) state artifacts completion ≡ ok o
    → IsCompleted (run new_store calls) state artifacts o
unfolding complete_risk_scan_request
complete-IsCompleted calls state artifacts c o h =
    let s = run new_store calls in
    let inv = calls-Inv new_store calls new_store-Inv in
    elim (Result-cases (require_verified_settlement s state)) [
      | inr (x, e) ↦ absurd (ground arith)
      | inl ((k, v), e) ↦ elim (Result-cases (require_bound_evidence s artifacts k)) [
        | inr (x, f) ↦ absurd (ground arith)
        | inl (a, f) ↦ elim (Result-cases (required_trimmed_string c.result_ref "resultRef" none)) [
          | inr (x, g) ↦ absurd (ground arith)
          | inl (t, g) ↦
              elim (Result-cases (required_trimmed_strings c.salient_reasons "salientReasons")) [
                | inr (x, p) ↦ absurd (ground arith)
                | inl (ts, p) ↦
                    elim (Result-cases (required_trimmed_strings c.limitations "limitations")) [
                      | inr (x, q) ↦ absurd (ground arith)
                      | inl (us, q) ↦
                          let (is_settlement, issued) = settlement_issued s state k v e in
                          let (r, is_evidence, bound) = evidence_issued s artifacts k a f in
                          let b = inv.evidences r k a bound in
                          let same : b.verified ≡ v = some_same (sym b.issued ∙ issued) in
                          record {
                            number = k;
                            verified = v;
                            result = record {
                              result_ref = t;
                              salient_reasons = ts;
                              limitations = us;
                            };
                            evidence_bound = a;
                            settlement_state = is_settlement;
                            issued_settlement = issued;
                            valid = inv.settlements k v issued;
                            receipt = r;
                            artifacts_state = is_evidence;
                            issued_evidence = bound;
                            same_request =
                                subst (λ w. a.request_ref ≡ (w.request).request_ref) same
                                  b.same_request;
                            same_settlement =
                                subst (λ w. a.settlement_ref ≡ w.settlement_ref) same
                                  b.same_settlement;
                            outcome = ground arith;
                          }
                    ]
              ]
        ]
      ]
    ]
