-- ===== src/Eligibility/Verdict.antt =====
-- What the verdicts of packages/core/src/riskscan-native-quote-eligibility.ts mean.
use tool.Common.{
  true, ◌↔◌, ◌≢◌, Option, none, some, List, [], ◌∷◌, if◌then◌else◌, ◌≡◌, refl, ◌∙◌, arith,
  chain-eq-some,
}
use tool.Common.Int.{ℤ, pos, ◌≤ℤ◌, eqb_ℤ}
use tool.Common.Text.{Text, ===_iff}
use tool.Js.{Value, string, Heap, snapshot_exact_record}
use tool.Value.{canonical_account_id, parse_hedera_account_id}
use tool.Eligibility.{
  eligible, declined, invalid_policy, invalid_quote, Policy, Quote, testnet, asset_and_amount,
  policy_of, parse_policy, quote_of, parse_quote, compare_quote, evaluate_risk_scan_native_quote,
  policy_fields, quote_fields,
}

abbrev pub Accepts : Policy → Quote → Type 0
Accepts policy quote =
    (quote.network ≡ policy.network)
    × (quote.asset ≡ policy.asset)
    × (quote.amount ≤ℤ policy.maximum_amount)

compare_quote_iff :
    (policy : Policy) (quote : Quote) (n a : Text) (m : ℤ)
    → (compare_quote policy quote ≡ eligible n a m)
      ↔ (Accepts policy quote × ((n ≡ policy.network) × (a ≡ quote.asset) × (m ≡ quote.amount)))
unfolding compare_quote
compare_quote_iff policy quote n a m =
    ground (arith, ===_iff quote.network policy.network, ===_iff quote.asset policy.asset)

decided :
    (x : Option Policy) (y : Option Quote) (n a : Text) (m : ℤ)
    → ((elim x [
      | none ↦ declined invalid_policy
      | some policy ↦ elim y [
        | none ↦ declined invalid_quote
        | some quote ↦ compare_quote policy quote
      ]
    ])
        ≡ eligible n a m)
      ↔ ((policy : Policy) × (quote : Quote) × (x ≡ some policy)
          × (y ≡ some quote)
          × Accepts policy quote
          × ((n ≡ policy.network) × (a ≡ quote.asset) × (m ≡ quote.amount)))
decided none y n a m = (λ h. absurd cc, λ (policy, quote, h, k, accepts, rest). absurd cc)
decided (some policy) none n a m =
    (λ h. absurd cc, λ (policy', quote, h, k, accepts, rest). absurd cc)
decided (some policy) (some quote) n a m = (
  λ h.
      let (accepts, rest) = (compare_quote_iff policy quote n a m).0 h in
      (policy, quote, refl, refl, accepts, rest),
  λ (policy', quote', h, k, accepts, rest).
      let first : policy ≡ policy' = cc in
      let second : quote ≡ quote' = cc in
      rw (first, second) ((compare_quote_iff policy' quote' n a m).1 (accepts, rest)),
)

-- A quote is eligible, with network n, asset a and amount m, exactly when the policy and the quote are
-- both read, their networks and their assets are equal, the amount of the quote is at most the
-- maximum of the policy, and n, a and m are the network, the asset and the amount of the quote.
pub evaluate_iff :
    (h : Heap) (p q : Value) (n a : Text) (m : ℤ)
    → (evaluate_risk_scan_native_quote h p q ≡ eligible n a m) ↔ (
        (policy : Policy) × (quote : Quote) × (parse_policy h p ≡ some policy)
        × (parse_quote h q ≡ some quote)
        × Accepts policy quote
        × ((n ≡ policy.network) × (a ≡ quote.asset) × (m ≡ quote.amount)))
unfolding evaluate_risk_scan_native_quote
evaluate_iff h p q n a m = decided (parse_policy h p) (parse_quote h q) n a m

account_id-canonical :
    (v : Value) (a : Text) → parse_hedera_account_id v ≡ some a → canonical_account_id a ≡ true
unfolding parse_hedera_account_id
account_id-canonical (string s) a h = ground arith
account_id-canonical _ a h = absurd cc

asset_and_amount-canonical :
    (v w : Value) (a : Text) (m : ℤ)
    → asset_and_amount v w ≡ some (a, m)
    → canonical_account_id a ≡ true
unfolding asset_and_amount
asset_and_amount-canonical v w a m h = ground (arith, account_id-canonical v)

policy_of-network :
    (vs : List Value) (policy : Policy) → policy_of vs ≡ some policy → policy.network ≡ testnet
unfolding policy_of
policy_of-network (v ∷ w ∷ x ∷ []) policy h = ground arith
policy_of-network _ policy h = absurd cc

parse_policy-network :
    (h : Heap) (v : Value) (policy : Policy)
    → parse_policy h v ≡ some policy
    → policy.network ≡ testnet
unfolding parse_policy
parse_policy-network h v policy e =
    let (values, read, ok) = chain-eq-some (snapshot_exact_record h v policy_fields) policy_of e in
    policy_of-network values policy ok

Sound : Quote → Type 0
Sound quote = (canonical_account_id quote.asset ≡ true) × (quote.amount ≢ pos 0)

nonzero : Text → Text × ℤ → Option Quote
nonzero s (a, m) =
    if eqb_ℤ m (pos 0) then none else some (record { network = s; asset = a; amount = m })

nonzero-Sound :
    (s a : Text) (m : ℤ) (quote : Quote)
    → canonical_account_id a ≡ true
    → nonzero s (a, m) ≡ some quote
    → Sound quote
unfolding nonzero Sound
nonzero-Sound s a m quote c h = ground arith

quote_of-Sound : (vs : List Value) (quote : Quote) → quote_of vs ≡ some quote → Sound quote
unfolding quote_of nonzero
quote_of-Sound (string s ∷ w ∷ x ∷ []) quote h =
    let ((a, m), read, ok) = chain-eq-some (asset_and_amount w x) (nonzero s) h in
    nonzero-Sound s a m quote (asset_and_amount-canonical w x a m read) ok
quote_of-Sound _ quote h = absurd cc

parse_quote-Sound :
    (h : Heap) (v : Value) (quote : Quote) → parse_quote h v ≡ some quote → Sound quote
unfolding parse_quote
parse_quote-Sound h v quote e =
    let (values, read, ok) = chain-eq-some (snapshot_exact_record h v quote_fields) quote_of e in
    quote_of-Sound values quote ok

-- An eligible quote is on hedera:testnet, for an asset that is a canonical account id, and for an amount
-- that is not zero.
pub evaluate_sound :
    (h : Heap) (p q : Value) (n a : Text) (m : ℤ)
    → evaluate_risk_scan_native_quote h p q ≡ eligible n a m
    → (n ≡ testnet) × (canonical_account_id a ≡ true) × (m ≢ pos 0)
unfolding Sound
evaluate_sound h p q n a m e =
    let (policy, quote, read, read', accepts, (network, asset, amount)) =
      (evaluate_iff h p q n a m).0 e in
    let (canonical, nonzero) = parse_quote-Sound h q quote read' in
    (network ∙ parse_policy-network h p policy read, rw asset canonical, rw amount nonzero)
