-- ===== src/Purchase/Payment.antt =====
-- A purchase past its payment was paid for under an active quote. See
-- packages/core/src/offering-purchase-lifecycle.ts.
use mathlib.Core.Path.{subst}
use tool.Common.{
  ℕ, zero, suc, Bool, true, false, List, [], ◌∷◌, ok, some, ◌≡◌, refl, sym, arith, All,
  if◌then◌else◌,
}
use tool.Common.Text.{Text}
use tool.Js.{Value, string}
use tool.Registry.{get}
use tool.Requirements.{OfferingRequirementsQuote, is_offering_requirements_quote_active}
use tool.Lifecycle.Provenance.{Reach, created, moved, run-Reach}
use tool.Lifecycle.Run.{Action, System, new_system, run}
use tool.Lifecycle.History.{recorded, recorded_name, recorded_run, recorded-eq-ok, run-recorded}
use tool.Lifecycle.Started.{IsStarted, run-IsStarted}
use tool.Purchase.{
  StateName, draft, awaiting_payment, expired, Event, open_event, expire, submits_payment,
  invalid_transition, next_state_name, requires_active_quote,
}

abbrev pub is_past_payment : StateName → Bool
is_past_payment draft = false
is_past_payment awaiting_payment = false
is_past_payment expired = false
is_past_payment _ = true

-- The payments that were submitted.
abbrev pub payments : List Event → ℕ
payments [] = zero
payments (submits_payment at ∷ es) = suc (payments es)
payments (_ ∷ es) = payments es

-- The time is a text at which the quote is active.
abbrev pub IsInTime : OfferingRequirementsQuote → Value → Type 0
IsInTime quote at =
    (t : Text) × (at ≡ string t) × (is_offering_requirements_quote_active quote t ≡ ok true)

-- The purchase was opened, and its payment submitted, while the quote was active.
abbrev pub IsFair : OfferingRequirementsQuote → Event → Type 0
IsFair quote (open_event at) = IsInTime quote at
IsFair quote (submits_payment at) = IsInTime quote at
IsFair quote _ = Unit

-- One payment was submitted, and every opening and every payment was in time.
pub record IsPaidInTime (quote : OfferingRequirementsQuote) (es : List Event) : Type 0 where
  pub once : payments es ≡ 1
  pub fair : All (IsFair quote) es

active-IsInTime :
    (at : Value) (quote : OfferingRequirementsQuote)
    → requires_active_quote quote at ≡ ok true
    → IsInTime quote at
unfolding requires_active_quote
active-IsInTime (string t) quote h = (t, refl, h)
active-IsInTime _ quote h = absurd (ground arith)

step-IsFair :
    (n m : StateName) (e : Event) (quote : OfferingRequirementsQuote)
    → next_state_name n e quote ≡ ok m
    → IsFair quote e
unfolding next_state_name
step-IsFair draft m (open_event at) quote h = active-IsInTime at quote (ground arith)
step-IsFair _ m (open_event at) quote h = absurd (ground arith)
step-IsFair awaiting_payment m (submits_payment at) quote h =
    active-IsInTime at quote (ground arith)
step-IsFair _ m (submits_payment at) quote h = absurd (ground arith)
step-IsFair n m _ quote h = tt

-- The payments that a purchase has behind it.
abbrev paid : StateName → ℕ
paid n = if is_past_payment n then 1 else 0

step-payments :
    (n m : StateName) (e : Event) (es : List Event) (quote : OfferingRequirementsQuote)
    → next_state_name n e quote ≡ ok m
    → payments es ≡ paid n
    → payments (e ∷ es) ≡ paid m
unfolding next_state_name
step-payments draft m (open_event at) es quote h k = ground arith
step-payments n m (open_event at) es quote h k = absurd (ground arith)
step-payments awaiting_payment m (submits_payment at) es quote h k = ground arith
step-payments n m (submits_payment at) es quote h k = absurd (ground arith)
step-payments awaiting_payment m (expire at) es quote h k = ground arith
step-payments n m (expire at) es quote h k = absurd (ground arith)
step-payments n m e es quote h k = ground arith

record IsCounted (quote : OfferingRequirementsQuote) (n : StateName × List Event) : Type 0 where
  count : payments n.1 ≡ paid n.0
  fair : All (IsFair quote) n.1

Reach-IsCounted :
    {quote : OfferingRequirementsQuote} {n : StateName × List Event}
    → Reach (recorded next_state_name) (draft, []) quote n
    → IsCounted quote n
Reach-IsCounted created = record { count = refl; fair = tt }
Reach-IsCounted {quote} (moved {n} {m} r e q) =
    let (allowed, added) = recorded-eq-ok next_state_name n m e quote q in
    let before = Reach-IsCounted r in
    record {
      count = rw added (step-payments n.0 m.0 e n.1 quote allowed before.count);
      fair =
          subst (All (IsFair quote)) (sym added) (step-IsFair n.0 m.0 e quote allowed, before.fair);
    }

abbrev pub never_claimed : StateName → Bool
never_claimed _ = false

abbrev pub purchase_run :
    List (Action OfferingRequirementsQuote Event) → System StateName OfferingRequirementsQuote
purchase_run = run next_state_name draft never_claimed invalid_transition new_system

-- The same run, with the events that have led to each state.
abbrev pub purchase_history :
    List (Action OfferingRequirementsQuote Event)
    → System (StateName × List Event) OfferingRequirementsQuote
purchase_history = recorded_run next_state_name draft never_claimed invalid_transition

-- Whatever the calls on purchases: the recorded run has the events that have led to a purchase in a
-- state past the payment; the calls have started each of them, exactly one submitted a payment, and it
-- and every opening were at times when the quote was active.
pub run-IsPaidInTime :
    (actions : List (Action OfferingRequirementsQuote Event)) (r : ℕ) (n : StateName)
    (quote : OfferingRequirementsQuote)
    → get (purchase_run actions).store.issued r ≡ some (n, quote)
    → is_past_payment n ≡ true
    → (es : List Event) × (get (purchase_history actions).store.issued r ≡ some ((n, es), quote))
      × All (IsStarted actions) es
      × IsPaidInTime quote es
run-IsPaidInTime actions r n quote found past =
    let (es, kept) =
      run-recorded next_state_name draft never_claimed invalid_transition actions r n quote found in
    let counted = Reach-IsCounted (
      run-Reach (recorded next_state_name) (draft, []) (recorded_name never_claimed)
        invalid_transition actions r (n, es) quote kept) in
    (
      es,
      kept,
      run-IsStarted next_state_name draft never_claimed invalid_transition actions r n es quote
          kept,
      record { once = ground arith; fair = counted.fair },
    )
