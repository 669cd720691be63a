-- ===== src/PaidTask/Tests.antt =====
-- A paid task from its creation to the claim of its result.
use tool.Common.{
  ℕ, true, some, List, [], ◌∷◌, has, delete, Result, ok, err, All, ◌≡◌, ◌<◌, ◌≤◌, ◌↔◌, refl,
}
use tool.Common.Text.{Text, codes, ◌===◌}
use tool.Js.{Value, string}
use tool.Registry.{get, find}
use tool.Timestamp.{parse_canonical_utc_milliseconds}
use tool.Lifecycle.{
  reference, Store, Pending, new_store, claim, transition, begin_transition, settle_transition,
  snapshot_for_issued_state, issue_state,
}
use tool.Lifecycle.Run.{Action, creates, starts, settles, new_system, nth, run, System}
use tool.Lifecycle.Conservation
use tool.Lifecycle.Started.{IsStarted}
use tool.Lifecycle.Provenance.{Reach, run-Reach}
use tool.Lifecycle.Exclusion.{
  IsTransition, transition-IsTransition, transition_error, begin_exclusive, consumed_forever,
}
use tool.PaidTask.{
  StateName, quoted, payment_submitted, result_valid, expired, PaidTaskInput, PaidTaskSnapshot,
  Event, expire, submits_payment, settles_payment, starts_execution, gives_result,
  invalid_transition, next_state_name, create_paid_task, is_result_valid, create_snapshot,
  bounded_reference, claim_paid_task_result_for_clearing,
}
use tool.PaidTask.Payment.{IsPaid, paid_task_history, run-IsPaid, claim-IsPaid}
use tool.PaidTask.Quote.{IsCreated, quoted_at, create_paid_task-IsCreated}

-- A digest that stands for the host's: the text of a string, nothing of anything else.
abbrev digest : Value → Result Text
digest (string s) = ok s
digest _ = err invalid_transition

abbrev noon : Text
noon = codes "2024-02-29T12:00:00.000Z"

abbrev one_o_clock : Text
one_o_clock = codes "2024-02-29T13:00:00.000Z"

abbrev task_input : PaidTaskInput
task_input = record {
  task_ref = string (codes "task");
  offering_version = string (codes "v1");
  requirements = string (codes "scan");
  expires_at = string one_o_clock;
}

abbrev task : PaidTaskSnapshot
task = record {
  task_ref = codes "task";
  offering_version = codes "v1";
  requirements_digest = codes "scan";
  expires_at = one_o_clock;
}

abbrev pay : Event
pay = submits_payment (string noon) (string (codes "scan"))

abbrev calls : List (Action PaidTaskSnapshot Event)
calls =
    creates task
    ∷ starts (reference 0) pay
    ∷ settles 0
    ∷ starts (reference 1) settles_payment
    ∷ settles 0
    ∷ starts (reference 2) starts_execution
    ∷ settles 0
    ∷ starts (reference 3) gives_result
    ∷ settles 0
    ∷ []

abbrev after : System StateName PaidTaskSnapshot
after = run (next_state_name digest) quoted is_result_valid invalid_transition new_system calls

noon_is_read : parse_canonical_utc_milliseconds (string noon) ≡ ok 63876427200000
unfolding parse_canonical_utc_milliseconds
noon_is_read = refl

one_o_clock_is_read : parse_canonical_utc_milliseconds (string one_o_clock) ≡ ok 63876430800000
unfolding parse_canonical_utc_milliseconds
one_o_clock_is_read = refl

after_has_result : get after.store.issued 4 ≡ some (result_valid, task)
unfolding run find begin_transition snapshot_for_issued_state issue_state settle_transition
    next_state_name parse_canonical_utc_milliseconds delete
after_has_result = refl

run-IsPaid_example :
    (es : List Event) × (get (paid_task_history digest calls).store.issued 4
      ≡ some ((result_valid, es), task))
    × All (IsStarted calls) es
    × IsPaid digest task es
run-IsPaid_example = run-IsPaid digest calls 4 result_valid task after_has_result refl

abbrev cleared : Store StateName PaidTaskSnapshot × Result PaidTaskSnapshot
cleared = claim_paid_task_result_for_clearing after.store (reference 4)

result_is_claimed :
    claim_paid_task_result_for_clearing after.store (reference 4) ≡ (cleared.0, ok task)
unfolding run find begin_transition snapshot_for_issued_state issue_state settle_transition
    next_state_name parse_canonical_utc_milliseconds delete claim_paid_task_result_for_clearing
result_is_claimed = refl

claim-IsPaid_example :
    (r : ℕ) × (n : StateName) × (es : List Event) × (reference 4 ≡ reference r)
    × (is_result_valid n ≡ true)
    × (get (paid_task_history digest calls).store.issued r ≡ some ((n, es), task))
    × All (IsStarted calls) es
    × IsPaid digest task es
claim-IsPaid_example = claim-IsPaid digest calls (reference 4) task cleared.0 result_is_claimed

run-Reach_example : Reach (next_state_name digest) quoted task result_valid
run-Reach_example =
    run-Reach (next_state_name digest) quoted is_result_valid invalid_transition calls 4
      result_valid task after_has_result

run-Inv_example : Conservation.Inv after
run-Inv_example =
    Conservation.run-Inv (next_state_name digest) quoted is_result_valid invalid_transition calls

abbrev quotes : Store StateName PaidTaskSnapshot
quotes = (create_paid_task digest new_store task_input).0

task_is_created : create_paid_task digest new_store task_input ≡ (quotes, ok 0)
unfolding create_paid_task create_snapshot bounded_reference parse_canonical_utc_milliseconds
    issue_state ◌===◌
task_is_created = refl

create_paid_task-IsCreated_example :
    (s : PaidTaskSnapshot) × (get quotes.issued 0 ≡ some (quoted, s))
    × IsCreated digest task_input s
create_paid_task-IsCreated_example =
    create_paid_task-IsCreated digest new_store quotes task_input 0 task_is_created

quoted_at_example :
    ((next_state_name digest quoted (expire (string noon)) task ≡ ok expired)
      ↔ (63876430800000 ≤ 63876427200000))
    × ((next_state_name digest quoted (submits_payment (string noon) (string (codes "scan"))) task
          ≡ ok payment_submitted)
        ↔ ((63876427200000 < 63876430800000) × (codes "scan" ≡ codes "scan")))
quoted_at_example =
    quoted_at digest task (string noon) (string (codes "scan")) 63876427200000 63876430800000
      (codes "scan") noon_is_read one_o_clock_is_read refl

abbrev moved : Store StateName PaidTaskSnapshot × Result ℕ
moved = transition (next_state_name digest) invalid_transition quotes (reference 0) pay

payment_is_submitted :
    transition (next_state_name digest) invalid_transition quotes (reference 0) pay
    ≡ (moved.0, ok 1)
unfolding transition begin_transition settle_transition snapshot_for_issued_state issue_state find
    next_state_name parse_canonical_utc_milliseconds delete create_paid_task create_snapshot
    bounded_reference ◌===◌
payment_is_submitted = refl

transition-IsTransition_example :
    IsTransition (next_state_name digest) invalid_transition quotes moved.0 0 pay 1
transition-IsTransition_example =
    transition-IsTransition (next_state_name digest) invalid_transition quotes moved.0 0 pay 1
      payment_is_submitted

abbrev refused : Store StateName PaidTaskSnapshot × Result ℕ
refused =
    transition (next_state_name digest) invalid_transition quotes (reference 0)
      (expire (string noon))

expiry_is_refused :
    transition
      (next_state_name digest)
      invalid_transition
      quotes
      (reference 0)
      (expire (string noon))
    ≡ (refused.0, err invalid_transition)
unfolding transition begin_transition settle_transition snapshot_for_issued_state issue_state find
    next_state_name parse_canonical_utc_milliseconds delete create_paid_task create_snapshot
    bounded_reference ◌===◌
expiry_is_refused = refl

transition_error_example : refused.0 ≡ quotes
transition_error_example =
    transition_error (next_state_name digest) invalid_transition quotes refused.0 (reference 0)
      (expire (string noon)) invalid_transition expiry_is_refused

-- The payment of the first task is under way while the expiry of the second one fails.
abbrev two_tasks : List (Action PaidTaskSnapshot Event)
two_tasks =
    creates task
    ∷ creates task
    ∷ starts (reference 0) pay
    ∷ starts (reference 1) (expire (string noon))
    ∷ settles 0
    ∷ []

abbrev under_way : System StateName PaidTaskSnapshot
under_way =
    run (next_state_name digest) quoted is_result_valid invalid_transition new_system two_tasks

abbrev payment : Pending StateName PaidTaskSnapshot
payment = record { state = 0; snapshot = task; outcome = ok payment_submitted }

payment_is_under_way : nth 0 under_way.pending ≡ some payment
unfolding run find begin_transition snapshot_for_issued_state issue_state settle_transition
    next_state_name parse_canonical_utc_milliseconds delete
payment_is_under_way = refl

begin_exclusive_example :
    (begin_transition (next_state_name digest) invalid_transition under_way.store (reference 0) pay
      ≡ err invalid_transition)
    × (claim is_result_valid invalid_transition under_way.store (reference 0)
        ≡ (under_way.store, err invalid_transition))
begin_exclusive_example =
    begin_exclusive (next_state_name digest) invalid_transition quoted is_result_valid two_tasks 0
      payment pay payment_is_under_way

first_is_consumed : has after.store.consumed 0 ≡ true
unfolding run find begin_transition snapshot_for_issued_state issue_state settle_transition
    next_state_name parse_canonical_utc_milliseconds delete has
first_is_consumed = refl

consumed_forever_example :
    begin_transition
      (next_state_name digest)
      invalid_transition
      (run (next_state_name digest) quoted is_result_valid invalid_transition after calls).store
      (reference 0)
      pay
    ≡ err invalid_transition
consumed_forever_example =
    consumed_forever (next_state_name digest) invalid_transition quoted is_result_valid after calls
      0 pay first_is_consumed
