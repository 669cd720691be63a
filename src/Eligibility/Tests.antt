-- ===== src/Eligibility/Tests.antt =====
-- A policy of at most 200000000 units, and a quote of 100000000.
use tool.Common.{◌≡◌, ◌≢◌, refl, true, some, if◌then◌else◌, ◌==◌, [], ◌∷◌}
use tool.Common.Int.{pos}
use tool.Common.Text.{Text, codes}
use tool.Js.{string, object, Heap, object_literal}
use tool.Value.{canonical_account_id}
use tool.Eligibility.{
  eligible, Policy, Quote, testnet, parse_policy, parse_quote, evaluate_risk_scan_native_quote,
}
use tool.Eligibility.Verdict.{Accepts, evaluate_iff, evaluate_sound}

abbrev asset : Text
asset = codes "0.0.429274"

abbrev heap : Heap
heap r = object_literal (
    if r == 0
    then ((codes "network", string testnet)
        ∷ (codes "asset", string asset)
        ∷ (codes "maximumAmount", string (codes "200000000"))
        ∷ [])
    else ((codes "network", string testnet)
        ∷ (codes "asset", string asset)
        ∷ (codes "amount", string (codes "100000000"))
        ∷ []))

is_eligible :
    evaluate_risk_scan_native_quote heap (object 0) (object 1)
    ≡ eligible testnet asset (pos 100000000)
unfolding evaluate_risk_scan_native_quote object_literal
is_eligible = refl

evaluate_iff_example :
    (policy : Policy) × (quote : Quote) × (parse_policy heap (object 0) ≡ some policy)
    × (parse_quote heap (object 1) ≡ some quote)
    × Accepts policy quote
    × ((testnet ≡ policy.network) × (asset ≡ quote.asset) × (pos 100000000 ≡ quote.amount))
evaluate_iff_example =
    (evaluate_iff heap (object 0) (object 1) testnet asset (pos 100000000)).0 is_eligible

evaluate_sound_example :
    (testnet ≡ testnet) × (canonical_account_id asset ≡ true) × (pos 100000000 ≢ pos 0)
evaluate_sound_example =
    evaluate_sound heap (object 0) (object 1) testnet asset (pos 100000000) is_eligible
