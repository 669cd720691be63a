-- ===== src/RiskScan/Binding.antt =====
-- What the registries of packages/core/src/risk-scan.ts hold after any sequence of calls.
use tool.Common.{
  ℕ, ◌≤◌, some, List, [], ◌∷◌, Result, ok, err, ◌≡◌, ◌⊎◌, refl, arith, inl, inr, Result-cases,
  Option-cases, length, ==_iff,
}
use tool.Common.Text.{Text}
use tool.Js.{Value, string}
use tool.Registry.{Registry, issue, get, find, Below, find-lt}
use tool.RiskScan.{
  RiskScanRequestInput, RiskScanRequest, RiskScanVerifiedSettlement, RiskScanBoundReceiptEvidence,
  Ref, payment_required, payment_pending, settlement, evidence, Store, new_store, Maximum,
  max_request_ref, max_subject_ref, max_context, required_trimmed_string,
  validate_risk_scan_request, start_risk_scan_request, mark_risk_scan_payment_pending,
  create_risk_scan_verified_settlement, bind_risk_scan_receipt_evidence,
  require_issued_payment_required, require_issued_payment_pending, require_verified_settlement,
  require_bound_evidence,
}

-- The calls that change what the module remembers.
pub data Call : Type 0 where
  start : RiskScanRequestInput → Call
  pay : Ref → Call
  settle : Ref → (request_ref settlement_ref : Value) → Call
  bind : Ref → (receipt_ref evidence_ref : Value) → Call

abbrev pub call : Store → Call → Result (Store × Ref)
call s (start i) = start_risk_scan_request s i
call s (pay state) = mark_risk_scan_payment_pending s state
call s (settle state request_ref settlement_ref) =
    create_risk_scan_verified_settlement s state request_ref settlement_ref
call s (bind state receipt_ref evidence_ref) =
    bind_risk_scan_receipt_evidence s state receipt_ref evidence_ref

-- A call that throws changes nothing.
abbrev pub kept : Store → Result (Store × Ref) → Store
kept s (ok (s', r)) = s'
kept s (err e) = s

unfoldable pub run : Store → List Call → Store
run s [] = s
run s (c ∷ cs) = run (kept s (call s c)) cs

abbrev pub Within : ℕ → Text → Type 0
Within most t = (1 ≤ length t) × (length t ≤ most)

pub record IsValid (request : RiskScanRequest) : Type 0 where
  pub request_ref : Within 96 request.request_ref
  pub subject_ref : Within 160 request.subject_ref
  pub context : Within 280 request.context

trimmed-Within :
    (v : Value) (field : _) (most : Maximum) (t : Text)
    → required_trimmed_string v field (some most) ≡ ok t
    → Within most.characters t
unfolding required_trimmed_string
trimmed-Within (string s) field most t h = ground arith
trimmed-Within _ field most t h = absurd (ground arith)

pub validated-IsValid :
    (i : RiskScanRequestInput) (request : RiskScanRequest)
    → validate_risk_scan_request i ≡ ok request
    → IsValid request
unfolding validate_risk_scan_request
validated-IsValid i request h =
    elim (Result-cases
      (required_trimmed_string i.request_ref "requestRef" (some max_request_ref))) [
        | inr (x, e) ↦ absurd (ground arith)
        | inl (a, e) ↦
            elim (Result-cases
              (required_trimmed_string i.subject_ref "subjectRef" (some max_subject_ref))) [
                | inr (x, f) ↦ absurd (ground arith)
                | inl (b, f) ↦
                    elim (Result-cases
                      (required_trimmed_string i.context "context" (some max_context))) [
                        | inr (x, g) ↦ absurd (ground arith)
                        | inl (c, g) ↦ record {
                          request_ref = ground (
                            arith,
                            trimmed-Within i.request_ref "requestRef" max_request_ref a e,
                          );
                          subject_ref = ground (
                            arith,
                            trimmed-Within i.subject_ref "subjectRef" max_subject_ref b f,
                          );
                          context =
                              ground (arith, trimmed-Within i.context "context" max_context c g);
                        }
                      ]
              ]
      ]

-- The evidence names the request and the settlement that it was bound to.
pub record IsBound (settlements : Registry RiskScanVerifiedSettlement)
    (e : RiskScanBoundReceiptEvidence) (k : ℕ) : Type 0 where
  pub verified : RiskScanVerifiedSettlement
  pub issued : get settlements k ≡ some verified
  pub same_request : e.request_ref ≡ (verified.request).request_ref
  pub same_settlement : e.settlement_ref ≡ verified.settlement_ref

-- What a request, a settlement or the evidence of a store satisfies.
pub record Inv (s : Store) : Type 0 where
  pub required : (r : ℕ) (a : RiskScanRequest) → get s.required r ≡ some a → IsValid a
  pub pending : (r : ℕ) (a : RiskScanRequest) → get s.pending r ≡ some a → IsValid a
  pub below : Below (s.settlements).next (s.settlements).entries
  pub settlements :
      (r : ℕ) (v : RiskScanVerifiedSettlement) → get s.settlements r ≡ some v → IsValid v.request
  pub evidences :
      (r k : ℕ) (e : RiskScanBoundReceiptEvidence)
      → get s.evidences r ≡ some (e, k)
      → IsBound s.settlements e k

pub new_store-Inv : Inv new_store
unfolding find
new_store-Inv = record {
  required = λ r a h. absurd (ground arith);
  pending = λ r a h. absurd (ground arith);
  below = tt;
  settlements = λ r v h. absurd (ground arith);
  evidences = λ r k e h. absurd (ground arith);
}

module _ {A : Type 0} where
  pub find-issue :
      (a b : A) (reg : Registry A) (r : ℕ)
      → get ((issue a reg).0) r ≡ some b
      → (b ≡ a) ⊎ (get reg r ≡ some b)
  unfolding find
  find-issue a b reg r h = ground arith

  pub find-kept :
      (a b : A) (reg : Registry A) (r : ℕ)
      → Below reg.next reg.entries
      → get reg r ≡ some b
      → get ((issue a reg).0) r ≡ some b
  unfolding find
  find-kept a b reg r below h =
      ground (arith, ==_iff r reg.next, find-lt r reg.next reg.entries b below h)

pub required_issued :
    (s : Store) (state : Ref) (a : RiskScanRequest)
    → require_issued_payment_required s state ≡ ok a
    → (k : ℕ) × (get s.required k ≡ some a)
unfolding require_issued_payment_required
required_issued s (payment_required k) a h = elim (Option-cases (get s.required k)) [
  | inl e ↦ absurd (ground arith)
  | inr (b, e) ↦ (k, ground arith)
]
required_issued s _ a h = absurd (ground arith)

pub pending_issued :
    (s : Store) (state : Ref) (a : RiskScanRequest)
    → require_issued_payment_pending s state ≡ ok a
    → (k : ℕ) × (get s.pending k ≡ some a)
unfolding require_issued_payment_pending
pending_issued s (payment_pending k) a h = elim (Option-cases (get s.pending k)) [
  | inl e ↦ absurd (ground arith)
  | inr (b, e) ↦ (k, ground arith)
]
pending_issued s _ a h = absurd (ground arith)

pub settlement_issued :
    (s : Store) (state : Ref) (k : ℕ) (v : RiskScanVerifiedSettlement)
    → require_verified_settlement s state ≡ ok (k, v)
    → (state ≡ settlement k) × (get s.settlements k ≡ some v)
unfolding require_verified_settlement
settlement_issued s (settlement j) k v h = elim (Option-cases (get s.settlements j)) [
  | inl e ↦ absurd (ground arith)
  | inr (b, e) ↦ ground arith
]
settlement_issued s _ k v h = absurd (ground arith)

pub evidence_issued :
    (s : Store) (artifacts : Ref) (k : ℕ) (e : RiskScanBoundReceiptEvidence)
    → require_bound_evidence s artifacts k ≡ ok e
    → (r : ℕ) × (artifacts ≡ evidence r) × (get s.evidences r ≡ some (e, k))
unfolding require_bound_evidence
evidence_issued s (evidence r) k e h = elim (Option-cases (get s.evidences r)) [
  | inl f ↦ absurd (ground arith)
  | inr ((x, j), f) ↦ (r, refl, ground (arith, ==_iff j k))
]
evidence_issued s _ k e h = absurd (ground arith)
