-- ===== src/RiskScan/Quick.antt =====
-- packages/core/src/risk-scan-quick.ts: the assessment of the declarations that a caller supplies.
use Prim.Native.String.{String, ◌++◌}
use tool.Common.{
  Bool, true, false, not, List, [], ◌∷◌, map, if◌then◌else◌, Result, ok, err, type_error,
  range_error, ◌>>=◌,
}
use tool.Common.Text.{Text, codes, ◌===◌}
use tool.Js.{Value, boolean, Key, name, symbol_key, is_field}
use tool.RiskScan.{RiskScanRequestInput, RiskScanRequest, validate_risk_scan_request}

pub data RiskScanQuickDeclaration : Type 0 where
  identity pricing limitations evidence : RiskScanQuickDeclaration

pub record RiskScanQuickDeclarations : Type 0 where
  pub identity : Bool
  pub pricing : Bool
  pub limitations : Bool
  pub evidence : Bool

pub data RiskScanQuickDisposition : Type 0 where
  needs_disclosure disclosures_reported : RiskScanQuickDisposition

pub record RiskScanQuickResult : Type 0 where
  pub request : RiskScanRequest
  pub disposition : RiskScanQuickDisposition
  pub reasons : List Text
  pub limitations : List Text

-- What is passed as declarations: an object that is no array, by its own keys and what reading a
-- property gives, or anything else.
pub data Declarations : Type 0 where
  no_object : Declarations
  an_object : (own_keys : List Key) (read : Text → Value) → Declarations

abbrev pub declaration_order : List RiskScanQuickDeclaration
declaration_order = identity ∷ pricing ∷ limitations ∷ evidence ∷ []

abbrev pub declaration_name : RiskScanQuickDeclaration → String
declaration_name identity = "identity"
declaration_name pricing = "pricing"
declaration_name limitations = "limitations"
declaration_name evidence = "evidence"

abbrev pub declaration_labels : RiskScanQuickDeclaration → String
declaration_labels identity = "identity disclosure"
declaration_labels pricing = "pricing disclosure"
declaration_labels limitations = "limitations disclosure"
declaration_labels evidence = "evidence disclosure"

abbrev pub quick_limitation : Text
quick_limitation =
    codes
      "Quick reflects caller-supplied declarations and does not verify a service, payment, or evidence record."

abbrev pub declaration_key : RiskScanQuickDeclaration → Text
declaration_key d = codes (declaration_name d)

unfoldable pub has_own : List Key → Text → Bool
has_own [] f = false
has_own (name k ∷ ks) f = if k === f then true else has_own ks f
has_own (symbol_key s ∷ ks) f = has_own ks f

-- The loop over the own keys. The message, which names the key, is cut short.
unfoldable pub check_supported : List Key → Result (Unit {0})
unfolding is_field
check_supported [] = ok tt
check_supported (k ∷ ks) =
    if is_field (map declaration_key declaration_order) k
    then check_supported ks
    else err (range_error "unsupported declaration")

abbrev as_boolean : RiskScanQuickDeclaration → Value → Result Bool
as_boolean d (boolean b) = ok b
as_boolean d _ = err (type_error (declaration_name d ++ " must be a boolean"))

-- One round of the loop over the declarations.
unfoldable pub declared : List Key → (Text → Value) → RiskScanQuickDeclaration → Result Bool
unfolding has_own
declared keys read d =
    if not (has_own keys (declaration_key d))
    then err (type_error (declaration_name d ++ " must be a boolean"))
    else as_boolean d (read (declaration_key d))

unfoldable pub validate_declarations : Declarations → Result RiskScanQuickDeclarations
unfolding check_supported declared
validate_declarations no_object = err (type_error "declarations must be an object")
validate_declarations (an_object keys read) = do
  checked ← check_supported keys
  i ← declared keys read identity
  p ← declared keys read pricing
  l ← declared keys read limitations
  e ← declared keys read evidence
  ok (record { identity = i; pricing = p; limitations = l; evidence = e })

abbrev pub reported : RiskScanQuickDeclarations → RiskScanQuickDeclaration → Bool
reported ds identity = ds.identity
reported ds pricing = ds.pricing
reported ds limitations = ds.limitations
reported ds evidence = ds.evidence

-- `declarationOrder.filter((declaration) => !declarations[declaration])`
unfoldable pub missing :
    RiskScanQuickDeclarations → List RiskScanQuickDeclaration → List RiskScanQuickDeclaration
missing ds [] = []
missing ds (d ∷ l) = let rest = missing ds l in if reported ds d then rest else d ∷ rest

unfoldable pub quick_result : RiskScanRequest → List RiskScanQuickDeclaration → RiskScanQuickResult
quick_result request [] = record {
  request = request;
  disposition = disclosures_reported;
  reasons = map (λ d. codes ("caller reported " ++ declaration_labels d)) declaration_order;
  limitations = quick_limitation ∷ [];
}
quick_result request (d ∷ l) = record {
  request = request;
  disposition = needs_disclosure;
  reasons = map (λ x. codes (declaration_labels x)) (d ∷ l);
  limitations = quick_limitation ∷ [];
}

unfoldable pub assess_risk_scan_quick :
    RiskScanRequestInput → Declarations → Result RiskScanQuickResult
unfolding validate_risk_scan_request validate_declarations missing quick_result
assess_risk_scan_quick input declarations = do
  request ← validate_risk_scan_request input
  ds ← validate_declarations declarations
  ok (quick_result request (missing ds declaration_order))
