-- ===== src/RiskScan/Preservation.antt =====
-- Every call of packages/core/src/risk-scan.ts keeps what the registries hold.
use tool.Common.{ℕ, none, List, [], ◌∷◌, ok, ◌≡◌, refl, arith, inl, inr, Result-cases}
use mathlib.Core.Path.{subst, sym}
use tool.Common.Text.{Text}
use tool.Js.{Value}
use tool.Registry.{issue}
use tool.RiskScan.{
  RiskScanRequestInput, RiskScanRequest, RiskScanVerifiedSettlement, RiskScanBoundReceiptEvidence,
  Ref, Store, required_trimmed_string, validate_risk_scan_request, start_risk_scan_request,
  mark_risk_scan_payment_pending, create_risk_scan_verified_settlement,
  bind_risk_scan_receipt_evidence, require_issued_payment_required, require_issued_payment_pending,
  require_verified_settlement,
}
use tool.RiskScan.Binding.{
  Call, call, kept, run, IsValid, validated-IsValid, IsBound, Inv, find-issue, find-kept,
  required_issued, pending_issued, settlement_issued, start, pay, settle, bind,
}

start-Inv :
    (s s' : Store) (i : RiskScanRequestInput) (r : Ref)
    → Inv s
    → start_risk_scan_request s i ≡ ok (s', r)
    → Inv s'
unfolding start_risk_scan_request
start-Inv s s' i r inv h = elim (Result-cases (validate_risk_scan_request i)) [
  | inr (x, e) ↦ absurd (ground arith)
  | inl (a, e) ↦
      let same : record s { required = (issue a s.required).0 } ≡ s' = ground arith in
      subst Inv same (record {
        required = λ r b f. elim (find-issue a b s.required r f) [
          | inl g ↦ subst IsValid (sym g) (validated-IsValid i a e)
          | inr g ↦ inv.required r b g
        ];
        pending = inv.pending;
        below = inv.below;
        settlements = inv.settlements;
        evidences = inv.evidences;
      })
]

pay-Inv :
    (s s' : Store) (state r : Ref)
    → Inv s
    → mark_risk_scan_payment_pending s state ≡ ok (s', r)
    → Inv s'
unfolding mark_risk_scan_payment_pending
pay-Inv s s' state r inv h = elim (Result-cases (require_issued_payment_required s state)) [
  | inr (x, e) ↦ absurd (ground arith)
  | inl (a, e) ↦
      let same : record s { pending = (issue a s.pending).0 } ≡ s' = ground arith in
      let (k, issued) = required_issued s state a e in
      subst Inv same (record {
        required = inv.required;
        pending = λ r b f. elim (find-issue a b s.pending r f) [
          | inl g ↦ subst IsValid (sym g) (inv.required k a issued)
          | inr g ↦ inv.pending r b g
        ];
        below = inv.below;
        settlements = inv.settlements;
        evidences = inv.evidences;
      })
]

abbrev settled : RiskScanRequest → Text → RiskScanVerifiedSettlement
settled a t = record { request = a; settlement_ref = t }

issue_settlement-Inv :
    (s : Store) (v : RiskScanVerifiedSettlement)
    → Inv s
    → IsValid v.request
    → Inv (record s { settlements = (issue v s.settlements).0 })
issue_settlement-Inv s v inv valid = record {
  required = inv.required;
  pending = inv.pending;
  below = (ground arith, inv.below);
  settlements = λ r b f. elim (find-issue v b s.settlements r f) [
    | inl g ↦ subst (λ x. IsValid (x.request)) (sym g) valid
    | inr g ↦ inv.settlements r b g
  ];
  evidences = λ r k e f.
      let bound = inv.evidences r k e f in
      record {
        verified = bound.verified;
        issued = find-kept v bound.verified s.settlements k inv.below bound.issued;
        same_request = bound.same_request;
        same_settlement = bound.same_settlement;
      };
}

settle-Inv :
    (s s' : Store) (state r : Ref) (request_ref settlement_ref : Value)
    → Inv s
    → create_risk_scan_verified_settlement s state request_ref settlement_ref ≡ ok (s', r)
    → Inv s'
unfolding create_risk_scan_verified_settlement
settle-Inv s s' state r request_ref settlement_ref inv h =
    elim (Result-cases (require_issued_payment_pending s state)) [
      | inr (x, e) ↦ absurd (ground arith)
      | inl (a, e) ↦ elim (Result-cases (required_trimmed_string request_ref "requestRef" none)) [
        | inr (x, f) ↦ absurd (ground arith)
        | inl (c, f) ↦
            elim (Result-cases (required_trimmed_string settlement_ref "settlementRef" none)) [
              | inr (x, g) ↦ absurd (ground arith)
              | inl (t, g) ↦
                  let same : record s { settlements = (issue (settled a t) s.settlements).0 } ≡ s' =
                    ground arith in
                  let (k, issued) = pending_issued s state a e in
                  subst Inv same (issue_settlement-Inv s (settled a t) inv (inv.pending k a issued))
            ]
      ]
    ]

abbrev artifacts_of : RiskScanVerifiedSettlement → Text → Text → RiskScanBoundReceiptEvidence
artifacts_of v receipt proof = record {
  request_ref = (v.request).request_ref;
  settlement_ref = v.settlement_ref;
  receipt_ref = receipt;
  evidence_ref = proof;
}

issue_evidence-Inv :
    (s : Store) (e : RiskScanBoundReceiptEvidence) (k : ℕ)
    → Inv s
    → IsBound s.settlements e k
    → Inv (record s { evidences = (issue (e, k) s.evidences).0 })
issue_evidence-Inv s e k inv bound = record {
  required = inv.required;
  pending = inv.pending;
  below = inv.below;
  settlements = inv.settlements;
  evidences = λ r j b f. elim (find-issue (e, k) (b, j) s.evidences r f) [
    | inl g ↦ subst (λ x. IsBound s.settlements x.0 x.1) (sym g) bound
    | inr g ↦ inv.evidences r j b g
  ];
}

bind-Inv :
    (s s' : Store) (state r : Ref) (receipt_ref evidence_ref : Value)
    → Inv s
    → bind_risk_scan_receipt_evidence s state receipt_ref evidence_ref ≡ ok (s', r)
    → Inv s'
unfolding bind_risk_scan_receipt_evidence
bind-Inv s s' state r receipt_ref evidence_ref inv h =
    elim (Result-cases (require_verified_settlement s state)) [
      | inr (x, e) ↦ absurd (ground arith)
      | inl ((k, v), e) ↦
          elim (Result-cases (required_trimmed_string receipt_ref "receiptRef" none)) [
            | inr (x, f) ↦ absurd (ground arith)
            | inl (receipt, f) ↦
                elim (Result-cases (required_trimmed_string evidence_ref "evidenceRef" none)) [
                  | inr (x, g) ↦ absurd (ground arith)
                  | inl (proof, g) ↦
                      let a = artifacts_of v receipt proof in
                      let same : record s { evidences = (issue (a, k) s.evidences).0 } ≡ s' =
                        ground arith in
                      let issued = settlement_issued s state k v e in
                      subst Inv same (
                        issue_evidence-Inv s a k inv (record {
                          verified = v;
                          issued = issued.1;
                          same_request = refl;
                          same_settlement = refl;
                        }))
                ]
          ]
    ]

call-Inv : (s s' : Store) (c : Call) (r : Ref) → Inv s → call s c ≡ ok (s', r) → Inv s'
call-Inv s s' (start i) r inv h = start-Inv s s' i r inv h
call-Inv s s' (pay state) r inv h = pay-Inv s s' state r inv h
call-Inv s s' (settle state a b) r inv h = settle-Inv s s' state r a b inv h
call-Inv s s' (bind state a b) r inv h = bind-Inv s s' state r a b inv h

pub calls-Inv : (s : Store) (cs : List Call) → Inv s → Inv (run s cs)
unfolding run
calls-Inv s [] inv = inv
calls-Inv s (c ∷ cs) inv = elim (Result-cases (call s c)) [
  | inl ((s', r), e) ↦
      subst (λ m. Inv (run (kept s m) cs)) (sym e) (calls-Inv s' cs (call-Inv s s' c r inv e))
  | inr (x, e) ↦ subst (λ m. Inv (run (kept s m) cs)) (sym e) (calls-Inv s cs inv)
]
