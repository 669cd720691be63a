-- ===== src/Eligibility.antt =====
-- packages/core/src/riskscan-native-quote-eligibility.ts: a quote against a spending policy.
pub mod Verdict
pub mod Tests
use tool.Common.{
  ℕ, Bool, true, false, not, ◌&&◌, ◌||◌, Option, none, some, List, [], ◌∷◌, if◌then◌else◌,
}
use tool.Common.Int.{ℤ, pos, ltb_ℤ, eqb_ℤ}
use tool.Common.Text.{Text, codes, ◌===◌}
use tool.Js.{Value, string, Heap, snapshot_exact_record}
use tool.Value.{parse_hedera_account_id, parse_note_units}

pub data RiskScanNativeQuoteDeclineReason : Type 0 where
  invalid_policy invalid_quote network_mismatch asset_mismatch amount_exceeds_maximum :
      RiskScanNativeQuoteDeclineReason

pub data RiskScanNativeQuoteEligibility : Type 0 where
  eligible : (network asset : Text) (amount : ℤ) → RiskScanNativeQuoteEligibility
  declined : RiskScanNativeQuoteDeclineReason → RiskScanNativeQuoteEligibility

pub record Policy : Type 0 where
  pub network : Text
  pub asset : Text
  pub maximum_amount : ℤ

pub record Quote : Type 0 where
  pub network : Text
  pub asset : Text
  pub amount : ℤ

abbrev pub policy_fields : List Text
policy_fields = codes "network" ∷ codes "asset" ∷ codes "maximumAmount" ∷ []

abbrev pub quote_fields : List Text
quote_fields = codes "network" ∷ codes "asset" ∷ codes "amount" ∷ []

abbrev pub testnet : Text
testnet = codes "hedera:testnet"

abbrev pub is_text : Text → Value → Bool
is_text t (string s) = s === t
is_text t _ = false

-- The asset and the amount of a policy or a quote; `none` where one of them is not read.
unfoldable pub asset_and_amount : Value → Value → Option (Text × ℤ)
unfolding parse_hedera_account_id parse_note_units
asset_and_amount raw_asset raw_amount = elim (parse_hedera_account_id raw_asset) [
  | none ↦ none
  | some asset ↦ elim (parse_note_units raw_amount) [
    | none ↦ none
    | some amount ↦ some (asset, amount)
  ]
]

unfoldable pub policy_of : List Value → Option Policy
unfolding asset_and_amount ◌===◌
policy_of (network ∷ raw_asset ∷ raw_amount ∷ []) =
    if is_text testnet network
    then (elim (asset_and_amount raw_asset raw_amount) [
      | none ↦ none
      | some (asset, amount) ↦
          some (record { network = testnet; asset = asset; maximum_amount = amount })
    ])
    else none
policy_of _ = none

unfoldable pub parse_policy : Heap → Value → Option Policy
unfolding snapshot_exact_record policy_of
parse_policy h input = elim (snapshot_exact_record h input policy_fields) [
  | none ↦ none
  | some values ↦ policy_of values
]

unfoldable pub quote_of : List Value → Option Quote
unfolding asset_and_amount
quote_of (string network ∷ raw_asset ∷ raw_amount ∷ []) =
    elim (asset_and_amount raw_asset raw_amount) [
      | none ↦ none
      | some (asset, amount) ↦
          if eqb_ℤ amount (pos 0)
          then none
          else some (record { network = network; asset = asset; amount = amount })
    ]
quote_of _ = none

unfoldable pub parse_quote : Heap → Value → Option Quote
unfolding snapshot_exact_record quote_of
parse_quote h input = elim (snapshot_exact_record h input quote_fields) [
  | none ↦ none
  | some values ↦ quote_of values
]

unfoldable pub compare_quote : Policy → Quote → RiskScanNativeQuoteEligibility
unfolding ◌===◌
compare_quote policy quote =
    if not (quote.network === policy.network)
    then declined network_mismatch
    else if not (quote.asset === policy.asset)
    then declined asset_mismatch
    else if ltb_ℤ policy.maximum_amount quote.amount
    then declined amount_exceeds_maximum
    else eligible policy.network quote.asset quote.amount

unfoldable pub evaluate_risk_scan_native_quote :
    Heap → (policy_input quote_input : Value) → RiskScanNativeQuoteEligibility
unfolding parse_policy parse_quote compare_quote
evaluate_risk_scan_native_quote h policy_input quote_input = elim (parse_policy h policy_input) [
  | none ↦ declined invalid_policy
  | some policy ↦ elim (parse_quote h quote_input) [
    | none ↦ declined invalid_quote
    | some quote ↦ compare_quote policy quote
  ]
]
