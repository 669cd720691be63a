-- ===== src/Purchase/Paths.antt =====
-- What the events of a purchase add up to. See packages/core/src/offering-purchase-lifecycle.ts.
use tool.Common.{
  ℕ, suc, ◌+◌, ◌≤◌, List, [], ◌∷◌, ok, some, ◌≡◌, arith, inl, inr, Result-cases, length,
}
use tool.Registry.{get}
use tool.Requirements.{OfferingRequirementsQuote}
use tool.Lifecycle.Drive.{follow, drive, drive-IsDriven}
use tool.Purchase.{
  StateName, draft, awaiting_payment, payment_submitted, payment_confirmed, allocation_pending,
  allocation_submitted, allocation_outcome_unknown, refund_required, refund_submitted,
  refund_outcome_unknown, complete, refunded, manual_reconciliation, Event, confirms_payment,
  submits_allocation, submits_refund, invalid_transition, next_state_name, Purchases,
}

-- How often the payment was confirmed, an allocation submitted and a refund submitted.
pub record Tally : Type 0 where
  pub confirmed : ℕ
  pub allocated : ℕ
  pub refunded : ℕ

abbrev one_event : Event → Tally → Tally
one_event confirms_payment t = record t { confirmed = suc t.confirmed }
one_event submits_allocation t = record t { allocated = suc t.allocated }
one_event submits_refund t = record t { refunded = suc t.refunded }
one_event _ t = t

abbrev pub tally : List Event → Tally
tally [] = record { confirmed = 0; allocated = 0; refunded = 0 }
tally (e ∷ es) = one_event e (tally es)

-- What a state stands for: its tally, and how many events lead to it at least.
abbrev pub tally_of : StateName → Tally
tally_of payment_confirmed = record { confirmed = 1; allocated = 0; refunded = 0 }
tally_of allocation_pending = record { confirmed = 1; allocated = 0; refunded = 0 }
tally_of refund_required = record { confirmed = 1; allocated = 0; refunded = 0 }
tally_of manual_reconciliation = record { confirmed = 1; allocated = 0; refunded = 0 }
tally_of allocation_submitted = record { confirmed = 1; allocated = 1; refunded = 0 }
tally_of allocation_outcome_unknown = record { confirmed = 1; allocated = 1; refunded = 0 }
tally_of complete = record { confirmed = 1; allocated = 1; refunded = 0 }
tally_of refund_submitted = record { confirmed = 1; allocated = 0; refunded = 1 }
tally_of refund_outcome_unknown = record { confirmed = 1; allocated = 0; refunded = 1 }
tally_of refunded = record { confirmed = 1; allocated = 0; refunded = 1 }
tally_of _ = record { confirmed = 0; allocated = 0; refunded = 0 }

abbrev rank : StateName → ℕ
rank draft = 0
rank awaiting_payment = 1
rank payment_submitted = 2
rank payment_confirmed = 3
rank allocation_pending = 4
rank allocation_submitted = 5
rank refund_required = 5
rank refund_submitted = 6
rank _ = 7

step-rank :
    (n m : StateName) (e : Event) (quote : OfferingRequirementsQuote)
    → next_state_name n e quote ≡ ok m
    → suc (rank n) ≤ rank m
unfolding next_state_name
step-rank n m e quote h = ground arith

step-tally :
    (n m : StateName) (e : Event) (quote : OfferingRequirementsQuote) (t : Tally)
    → next_state_name n e quote ≡ ok m
    → ((tally_of n).confirmed + (one_event e t).confirmed ≡ (tally_of m).confirmed + t.confirmed)
      × ((tally_of n).allocated + (one_event e t).allocated ≡ (tally_of m).allocated + t.allocated)
      × ((tally_of n).refunded + (one_event e t).refunded ≡ (tally_of m).refunded + t.refunded)
unfolding next_state_name
step-tally n m e quote t h = ground arith

equal_tallies :
    (t u : Tally)
    → t.confirmed ≡ u.confirmed
    → t.allocated ≡ u.allocated
    → t.refunded ≡ u.refunded
    → t ≡ u
equal_tallies t u c a r = ground arith

-- The events that lead from one state to another, and what they add up to.
pub record Accounts (n m : StateName) (es : List Event) : Type 0 where
  pub confirmed : (tally_of n).confirmed + (tally es).confirmed ≡ (tally_of m).confirmed
  pub allocated : (tally_of n).allocated + (tally es).allocated ≡ (tally_of m).allocated
  pub refunded : (tally_of n).refunded + (tally es).refunded ≡ (tally_of m).refunded
  pub finite : rank n + length es ≤ rank m

follow-Accounts :
    (quote : OfferingRequirementsQuote) (n m : StateName) (es : List Event)
    → follow next_state_name invalid_transition quote n es ≡ ok m
    → Accounts n m es
unfolding follow
follow-Accounts quote n m [] h = ground arith
follow-Accounts quote n m (e ∷ es) h = elim (Result-cases (next_state_name n e quote)) [
  | inr (x, p) ↦ absurd (ground arith)
  | inl (k, p) ↦
      let rest = follow-Accounts quote k m es (rw p at h) in
      let (c, a, r) = step-tally n k e quote (tally es) p in
      record {
        confirmed = omega (arith, rest.confirmed, c);
        allocated = omega (arith, rest.allocated, a);
        refunded = omega (arith, rest.refunded, r);
        finite = omega (arith, rest.finite, step-rank n k e quote p);
      }
]

rank-le : (n : StateName) → rank n ≤ 7
rank-le n = ground arith

same_tally : (es : List Event) (m : StateName) → Accounts draft m es → tally es ≡ tally_of m
same_tally es m a =
    equal_tallies (tally es) (tally_of m) (omega (arith, a)) (omega (arith, a)) (omega (arith, a))

-- A draft purchase that is driven by any sequence of transitions that succeeds ends after at most
-- seven of them, in a state that says exactly how often its payment was confirmed, its allocation
-- submitted and its refund submitted: a complete purchase was confirmed and allocated once and never
-- refunded, a refunded one confirmed and refunded once and never allocated.
pub drive-tally :
    (purchases purchases' : Purchases) (r r' : ℕ) (es : List Event)
    (quote : OfferingRequirementsQuote)
    → get purchases.issued r ≡ some (draft, quote)
    → drive next_state_name invalid_transition purchases r es ≡ (purchases', ok r')
    → (m : StateName) × (get purchases'.issued r' ≡ some (m, quote))
      × (tally es ≡ tally_of m)
      × (length es ≤ 7)
drive-tally purchases purchases' r r' es quote g d =
    let p =
      drive-IsDriven next_state_name invalid_transition purchases purchases' r r' es draft quote g
        d in
    let a = follow-Accounts quote draft p.name es p.followed in
    (p.name, p.issued, same_tally es p.name a, omega (arith, a.finite, rank-le p.name))
