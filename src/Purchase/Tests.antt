-- ===== src/Purchase/Tests.antt =====
-- A purchase from its draft to its completion.
use tool.Common.{ℕ, List, [], ◌∷◌, length, some, Result, ok, All, ◌≡◌, ◌≤◌, refl, delete}
use tool.Common.Int.{pos}
use tool.Common.Text.{Text, codes}
use tool.Js.{string}
use tool.Registry.{get, find}
use tool.Requirements.{OfferingRequirementsQuote, is_offering_requirements_quote_active}
use tool.Lifecycle.{
  reference, new_store, issue_state, transition, begin_transition, settle_transition,
  snapshot_for_issued_state,
}
use tool.Lifecycle.Run.{Action, creates, starts, settles, run}
use tool.Lifecycle.Started.{IsStarted}
use tool.Lifecycle.Drive.{drive, IsDriven, drive-IsDriven}
use tool.Purchase.{
  StateName, draft, payment_submitted, Event, open_event, submits_payment, confirms_payment,
  awaits_allocation, submits_allocation, completes, invalid_transition, next_state_name, Purchases,
  requires_active_quote,
}
use tool.Purchase.Payment.{IsPaidInTime, purchase_run, purchase_history, run-IsPaidInTime}
use tool.Purchase.Paths.{tally, tally_of, drive-tally}

abbrev noon : Text
noon = codes "2024-02-29T12:00:00.000Z"

abbrev quote : OfferingRequirementsQuote
quote = record {
  terms_version = codes "v1";
  requested_units = pos 3;
  payment_tinybars = pos 30;
  remaining_capacity_units = pos 7;
  requirements_digest = codes "scan";
  expires_at = codes "2024-02-29T13:00:00.000Z";
}

abbrev events : List Event
events =
    open_event (string noon)
    ∷ submits_payment (string noon)
    ∷ confirms_payment
    ∷ awaits_allocation
    ∷ submits_allocation
    ∷ completes
    ∷ []

abbrev drafted : Purchases
drafted = (issue_state draft quote new_store).0

draft_is_issued : get drafted.issued 0 ≡ some (draft, quote)
unfolding issue_state find
draft_is_issued = refl

abbrev completed : Purchases × Result ℕ
completed = drive next_state_name invalid_transition drafted 0 events

draft_is_driven : drive next_state_name invalid_transition drafted 0 events ≡ (completed.0, ok 6)
unfolding drive transition begin_transition snapshot_for_issued_state issue_state settle_transition
    next_state_name requires_active_quote is_offering_requirements_quote_active delete
draft_is_driven = refl

drive-tally_example :
    (m : StateName) × (get (completed.0).issued 6 ≡ some (m, quote))
    × (tally events ≡ tally_of m)
    × (length events ≤ 7)
drive-tally_example =
    drive-tally drafted completed.0 0 6 events quote draft_is_issued draft_is_driven

drive-IsDriven_example :
    IsDriven next_state_name invalid_transition quote draft events completed.0 6
drive-IsDriven_example =
    drive-IsDriven next_state_name invalid_transition drafted completed.0 0 6 events draft quote
      draft_is_issued draft_is_driven

abbrev calls : List (Action OfferingRequirementsQuote Event)
calls =
    creates quote
    ∷ starts (reference 0) (open_event (string noon))
    ∷ settles 0
    ∷ starts (reference 1) (submits_payment (string noon))
    ∷ settles 0
    ∷ []

payment_is_submitted : get (purchase_run calls).store.issued 2 ≡ some (payment_submitted, quote)
unfolding run find begin_transition snapshot_for_issued_state issue_state settle_transition
    next_state_name requires_active_quote is_offering_requirements_quote_active delete
payment_is_submitted = refl

run-IsPaidInTime_example :
    (es : List Event) × (get (purchase_history calls).store.issued 2
      ≡ some ((payment_submitted, es), quote))
    × All (IsStarted calls) es
    × IsPaidInTime quote es
run-IsPaidInTime_example =
    run-IsPaidInTime calls 2 payment_submitted quote payment_is_submitted refl
