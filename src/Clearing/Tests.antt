-- ===== src/Clearing/Tests.antt =====
-- The clearing of a result, whose first submission is proven not to have been executed.
use tool.Common.{
  ℕ, true, false, zero, suc, some, List, [], ◌∷◌, delete, Result, ok, err, ◌+◌, ◌≡◌, refl,
}
use tool.Common.Text.{Text, codes, ◌===◌}
use tool.Js.{Value, string, object, name, Object, Heap, data_property, object_prototype}
use tool.Registry.{get, find}
use tool.Lifecycle.{
  reference, new_store, issue_state, transition, begin_transition, settle_transition,
  snapshot_for_issued_state,
}
use tool.Lifecycle.Run.{System, Action, creates, starts, run}
use tool.Lifecycle.Drive.{drive}
use tool.PaidTask
use tool.PaidTask.{PaidTaskSnapshot, Event, is_result_valid, claim_paid_task_result_for_clearing}
use tool.Clearing.{
  StateName, split_required, EventType, Splits, Tasks, invalid_transition, next_by_event,
  create_clearing_split, event_type, event_of, event_named, next_state_name,
}
use tool.Clearing.Retries.{submits, proofs, out, types_of, drive-submits_once}
use tool.Clearing.Claims.{IsClaimed, create_clearing_split-IsClaimed, create_clearing_split_once}

abbrev event_object : Text → Object
event_object t = record {
  prototype = some object_prototype;
  is_array = some false;
  own_keys = some (name (codes "type") ∷ []);
  descriptor = λ k. some (some (data_property true (string t)));
}

abbrev heap : Heap
heap zero = event_object (codes "submit")
heap (suc zero) = event_object (codes "outcome_unknown")
heap (suc (suc zero)) = event_object (codes "non_execution_proven")
heap _ = event_object (codes "confirm")

abbrev events : List Value
events = object 0 ∷ object 1 ∷ object 2 ∷ object 0 ∷ object 3 ∷ []

abbrev task : PaidTaskSnapshot
task = record {
  task_ref = codes "task";
  offering_version = codes "v1";
  requirements_digest = codes "scan";
  expires_at = codes "2024-02-29T13:00:00.000Z";
}

abbrev tasks : Tasks
tasks = (issue_state PaidTask.StateName.result_valid task new_store).0

abbrev claimed : System PaidTask.StateName PaidTaskSnapshot
claimed = record {
  store = (create_clearing_split tasks new_store (reference 0)).0;
  pending = [];
  created = 1;
  claimed = 1;
}

abbrev required : Splits
required = ((create_clearing_split tasks new_store (reference 0)).1).0

split_is_created :
    create_clearing_split tasks new_store (reference 0) ≡ (claimed.store, (required, ok 0))
unfolding create_clearing_split claim_paid_task_result_for_clearing snapshot_for_issued_state
    issue_state
split_is_created = refl

create_clearing_split-IsClaimed_example : IsClaimed tasks claimed.store required (reference 0) 0
create_clearing_split-IsClaimed_example =
    create_clearing_split-IsClaimed tasks claimed.store new_store required (reference 0) 0
      split_is_created

abbrev digest : Value → Result Text
digest v = err invalid_transition

abbrev between : List (Action PaidTaskSnapshot Event)
between = creates task ∷ starts (reference 1) PaidTask.Event.loses_response ∷ []

abbrev later : Tasks
later =
    (run (PaidTask.next_state_name digest) PaidTask.StateName.quoted is_result_valid
      PaidTask.invalid_transition claimed between).store

create_clearing_split_once_example :
    create_clearing_split later required (reference 0)
    ≡ (later, (required, err PaidTask.invalid_transition))
create_clearing_split_once_example =
    create_clearing_split_once digest claimed tasks new_store required required (reference 0) 0
      between split_is_created

split_is_required : get required.issued 0 ≡ some (split_required, task)
unfolding create_clearing_split find claim_paid_task_result_for_clearing snapshot_for_issued_state
    issue_state
split_is_required = refl

abbrev confirmed : Splits × Result ℕ
confirmed = drive (next_by_event heap) invalid_transition required 0 events

split_is_driven :
    drive (next_by_event heap) invalid_transition required 0 events ≡ (confirmed.0, ok 5)
unfolding drive transition begin_transition settle_transition create_clearing_split find
    claim_paid_task_result_for_clearing snapshot_for_issued_state issue_state next_by_event
    event_type event_of event_named next_state_name ◌===◌ delete
split_is_driven = refl

drive-submits_once_example :
    (m : StateName) × (ts : List EventType) × (types_of heap events ≡ ok ts)
    × (get (confirmed.0).issued 5 ≡ some (m, task))
    × (submits ts ≡ out m + proofs ts)
drive-submits_once_example =
    drive-submits_once heap required confirmed.0 0 5 events task split_is_required split_is_driven
