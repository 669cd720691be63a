-- ===== src/RiskScan/Disclosure.antt =====
-- What a quick assessment reports of the declarations. See packages/core/src/risk-scan-quick.ts.
use tool.Common.{
  Bool, true, false, not, ◌&&◌, if◌then◌else◌, List, [], ◌∷◌, map, All, ok, ◌≡◌, ◌↔◌, refl, arith,
  inl, inr, Result-cases, Bool-cases, sym, ap, ◌∙◌,
}
use mathlib.Core.Path.{subst}
use tool.Common.Text.{Text, codes, ◌===◌, ===_refl}
use tool.Js.{Value, boolean, Key, is_field, includes}
use tool.RiskScan.{RiskScanRequestInput, RiskScanRequest, validate_risk_scan_request}
use tool.RiskScan.Quick.{
  RiskScanQuickDeclaration, identity, pricing, limitations, evidence, RiskScanQuickDeclarations,
  RiskScanQuickResult, needs_disclosure, disclosures_reported, Declarations, no_object, an_object,
  declaration_order, declaration_labels, declaration_key, has_own, check_supported, declared,
  validate_declarations, reported, missing, quick_result, assess_risk_scan_quick,
}

-- The object has the four declarations, each as a Boolean, and nothing else.
pub record IsDeclared (keys : List Key) (read : Text → Value) (ds : RiskScanQuickDeclarations)
    : Type 0 where
  pub supported : All (λ k. is_field (map declaration_key declaration_order) k ≡ true) keys
  pub own : (d : RiskScanQuickDeclaration) → has_own keys (declaration_key d) ≡ true
  pub value : (d : RiskScanQuickDeclaration) → read (declaration_key d) ≡ boolean (reported ds d)

-- What the result tells of the declarations.
pub record IsDisclosed (ds : RiskScanQuickDeclarations) (r : RiskScanQuickResult) : Type 0 where
  pub complete :
      (r.disposition ≡ disclosures_reported)
      ↔ ((d : RiskScanQuickDeclaration) → reported ds d ≡ true)
  pub incomplete :
      r.disposition ≡ needs_disclosure
      → (d : RiskScanQuickDeclaration)
      → includes r.reasons (codes (declaration_labels d)) ≡ not (reported ds d)

check_supported-All :
    (keys : List Key) (u : Unit {0})
    → check_supported keys ≡ ok u
    → All (λ k. is_field (map declaration_key declaration_order) k ≡ true) keys
unfolding check_supported
check_supported-All [] u h = tt
check_supported-All (k ∷ ks) u h =
    elim (Bool-cases (is_field (map declaration_key declaration_order) k)) [
      | inl e ↦ (e, check_supported-All ks u (ground arith))
      | inr e ↦ absurd (ground arith)
    ]

declared-eq-ok :
    (keys : List Key) (read : Text → Value) (d : RiskScanQuickDeclaration) (b : Bool)
    → declared keys read d ≡ ok b
    → (has_own keys (declaration_key d) ≡ true) × (read (declaration_key d) ≡ boolean b)
unfolding declared
declared-eq-ok keys read d b h = ground arith

each {ℓ} :
    (P : RiskScanQuickDeclaration → Type ℓ)
    → P identity
    → P pricing
    → P limitations
    → P evidence
    → (d : RiskScanQuickDeclaration) → P d
each P i p l e identity = i
each P i p l e pricing = p
each P i p l e limitations = l
each P i p l e evidence = e

validate_declarations-IsDeclared :
    (declarations : Declarations) (ds : RiskScanQuickDeclarations)
    → validate_declarations declarations ≡ ok ds
    → (keys : List Key) × (read : Text → Value) × (declarations ≡ an_object keys read)
      × IsDeclared keys read ds
unfolding validate_declarations
validate_declarations-IsDeclared no_object ds h = absurd (ground arith)
validate_declarations-IsDeclared (an_object keys read) ds h =
    elim (Result-cases (check_supported keys)) [
      | inr (x, e) ↦ absurd (ground arith)
      | inl (u, e) ↦ elim (Result-cases (declared keys read identity)) [
        | inr (x, f) ↦ absurd (ground arith)
        | inl (i, f) ↦ elim (Result-cases (declared keys read pricing)) [
          | inr (x, g) ↦ absurd (ground arith)
          | inl (p, g) ↦ elim (Result-cases (declared keys read limitations)) [
            | inr (x, k) ↦ absurd (ground arith)
            | inl (l, k) ↦ elim (Result-cases (declared keys read evidence)) [
              | inr (x, m) ↦ absurd (ground arith)
              | inl (v, m) ↦
                  let all : (d : RiskScanQuickDeclaration)
                      → declared keys read d ≡ ok (reported ds d) =
                    each _ (ground arith) (ground arith) (ground arith) (ground arith) in
                  (
                    keys,
                    read,
                    refl,
                    record {
                      supported = check_supported-All keys u e;
                      own = λ d. (declared-eq-ok keys read d (reported ds d) (all d)).0;
                      value = λ d. (declared-eq-ok keys read d (reported ds d) (all d)).1;
                    },
                  )
            ]
          ]
        ]
      ]
    ]

abbrev label : RiskScanQuickDeclaration → Text
label d = codes (declaration_labels d)

abbrev same : RiskScanQuickDeclaration → RiskScanQuickDeclaration → Bool
same identity identity = true
same pricing pricing = true
same limitations limitations = true
same evidence evidence = true
same _ _ = false

abbrev member : RiskScanQuickDeclaration → List RiskScanQuickDeclaration → Bool
member d [] = false
member d (x ∷ l) = if same x d then true else member d l

label-same : (x d : RiskScanQuickDeclaration) → (label x === label d) ≡ same x d
unfolding ◌===◌
label-same identity = each _ refl refl refl refl
label-same pricing = each _ refl refl refl refl
label-same limitations = each _ refl refl refl refl
label-same evidence = each _ refl refl refl refl

reported-same :
    (ds : RiskScanQuickDeclarations) (x d : RiskScanQuickDeclaration)
    → same x d ≡ true
    → reported ds x ≡ reported ds d
reported-same ds identity identity h = refl
reported-same ds pricing pricing h = refl
reported-same ds limitations limitations h = refl
reported-same ds evidence evidence h = refl
reported-same ds _ _ h = absurd (ground arith)

includes-missing :
    (ds : RiskScanQuickDeclarations) (l : List RiskScanQuickDeclaration)
    (d : RiskScanQuickDeclaration)
    → includes (map label (missing ds l)) (label d) ≡ (member d l && not (reported ds d))
unfolding includes missing
includes-missing ds [] d = refl
includes-missing ds (x ∷ l) d =
    ground (arith, label-same x d, reported-same ds x d, includes-missing ds l d)

all_member : (d : RiskScanQuickDeclaration) → member d declaration_order ≡ true
all_member = each _ refl refl refl refl

quick_result-IsDisclosed :
    (request : RiskScanRequest) (ds : RiskScanQuickDeclarations) (m : List RiskScanQuickDeclaration)
    → ((d : RiskScanQuickDeclaration) → includes (map label m) (label d) ≡ not (reported ds d))
    → IsDisclosed ds (quick_result request m)
unfolding quick_result includes
quick_result-IsDisclosed request ds [] f = record {
  complete = (λ h d. ground (arith, f d), λ h. refl);
  incomplete = λ h. absurd (ground arith);
}
quick_result-IsDisclosed request ds (x ∷ m) f = record {
  complete =
      (λ h. absurd (ground arith), λ h. absurd (ground (arith, f x, h x, ===_refl (label x))));
  incomplete = λ h. f;
}

quick_result-request :
    (request : RiskScanRequest) (m : List RiskScanQuickDeclaration)
    → (quick_result request m).request ≡ request
unfolding quick_result
quick_result-request request [] = refl
quick_result-request request (x ∷ m) = refl

-- A quick assessment that is made is of a valid request and of an object with the four declarations
-- as its own keys, each a Boolean, and with no other key. It reports the disclosures as complete
-- exactly when all four are declared; otherwise its reasons name exactly those that are not.
pub assess_risk_scan_quick-IsDisclosed :
    (input : RiskScanRequestInput) (declarations : Declarations) (r : RiskScanQuickResult)
    → assess_risk_scan_quick input declarations ≡ ok r
    → (validate_risk_scan_request input ≡ ok r.request)
      × ((keys : List Key) × (read : Text → Value) × (ds : RiskScanQuickDeclarations)
          × (declarations ≡ an_object keys read)
          × IsDeclared keys read ds
          × IsDisclosed ds r)
unfolding assess_risk_scan_quick
assess_risk_scan_quick-IsDisclosed input declarations r h =
    elim (Result-cases (validate_risk_scan_request input)) [
      | inr (x, e) ↦ absurd (ground arith)
      | inl (request, e) ↦ elim (Result-cases (validate_declarations declarations)) [
        | inr (x, f) ↦ absurd (ground arith)
        | inl (ds, f) ↦
            let result = quick_result request (missing ds declaration_order) in
            let same_result : result ≡ r = ground arith in
            let (keys, read, an, declared_all) =
              validate_declarations-IsDeclared declarations ds f in
            let disclosed =
              quick_result-IsDisclosed request ds (missing ds declaration_order)
                (λ d. ground (arith, includes-missing ds declaration_order d, all_member d)) in
            (
              subst (λ x. validate_risk_scan_request input ≡ ok (x.request)) same_result
                  (e ∙ ap ok (sym (quick_result-request request (missing ds declaration_order)))),
              (keys, read, ds, an, declared_all, subst (IsDisclosed ds) same_result disclosed),
            )
      ]
    ]
