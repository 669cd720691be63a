-- ===== src/Clearing/Claims.antt =====
-- A result of a paid task is cleared once. See packages/core/src/clearing-split-lifecycle.ts and
-- `claimPaidTaskResultForClearing` of packages/core/src/paid-task-lifecycle.ts.
use tool.Common.{ℕ, true, List, some, Result, ok, err, ◌≡◌, refl, arith, ap, has, ==_refl}
use tool.Common.Text.{Text}
use tool.Js.{Value}
use tool.Registry.{get, find}
use tool.Lifecycle.{Handle, reference, issue_state, claim, snapshot_for_issued_state}
use tool.Lifecycle.Run.{System, Action, run, claim-eq-ok}
use tool.Lifecycle.Exclusion.{run-consumed}
use tool.PaidTask
use tool.PaidTask.{PaidTaskSnapshot, Event, claim_paid_task_result_for_clearing, is_result_valid}
use tool.Clearing.{split_required, Splits, Tasks, opened, create_clearing_split}

-- What a clearing that is created rests on: a task with a valid result, which it consumes.
pub record IsClaimed (tasks tasks' : Tasks) (splits' : Splits) (result : Handle) (r : ℕ)
    : Type 0 where
  pub task : ℕ
  pub handle : result ≡ reference task
  pub snapshot : PaidTaskSnapshot
  pub valid : get tasks.issued task ≡ some (PaidTask.StateName.result_valid, snapshot)
  pub consumed : has tasks'.consumed task ≡ true
  pub required : get splits'.issued r ≡ some (split_required, snapshot)

result_valid_only :
    (n : PaidTask.StateName) → is_result_valid n ≡ true → n ≡ PaidTask.StateName.result_valid
result_valid_only n h = ground arith

opened-IsClaimed :
    (tasks tasks' : Tasks) (splits splits' : Splits) (result : Handle) (r : ℕ)
    (x : Tasks × Result PaidTaskSnapshot)
    → claim_paid_task_result_for_clearing tasks result ≡ x
    → opened splits x ≡ (tasks', (splits', ok r))
    → IsClaimed tasks tasks' splits' result r
unfolding claim_paid_task_result_for_clearing issue_state find has
opened-IsClaimed tasks tasks' splits splits' result r (t, err e) c h = absurd (ground arith)
opened-IsClaimed tasks tasks' splits splits' result r (t, ok snapshot) c h =
    let (task, n, issued, valid, handle, after) =
      claim-eq-ok is_result_valid PaidTask.invalid_transition tasks t result snapshot c in
    record {
      task = task;
      handle = handle;
      snapshot = snapshot;
      valid = rw (← result_valid_only n valid) issued;
      consumed = ground (arith, after, ==_refl task);
      required = ground (arith, ==_refl splits.issued.next);
    }

-- A clearing that is created rests on an issued task with a valid result, which it consumes; it is
-- issued as required, with the snapshot of the task.
pub create_clearing_split-IsClaimed :
    (tasks tasks' : Tasks) (splits splits' : Splits) (result : Handle) (r : ℕ)
    → create_clearing_split tasks splits result ≡ (tasks', (splits', ok r))
    → IsClaimed tasks tasks' splits' result r
unfolding create_clearing_split
create_clearing_split-IsClaimed tasks tasks' splits splits' result r h =
    opened-IsClaimed tasks tasks' splits splits' result r _ refl h

claim_consumed :
    (tasks : Tasks) (k : ℕ)
    → has tasks.consumed k ≡ true
    → claim_paid_task_result_for_clearing tasks (reference k)
      ≡ (tasks, err PaidTask.invalid_transition)
unfolding claim_paid_task_result_for_clearing snapshot_for_issued_state claim
claim_consumed tasks k h = ground arith

-- No second clearing is created from one result, whatever is called on paid tasks in between: the
-- claim throws, and neither module's state changes.
pub create_clearing_split_once :
    (digest : Value → Result Text) (s : System PaidTask.StateName PaidTaskSnapshot) (tasks : Tasks)
    (splits splits' splits'' : Splits) (result : Handle) (r : ℕ)
    (actions : List (Action PaidTaskSnapshot Event))
    → create_clearing_split tasks splits result ≡ (s.store, (splits', ok r))
    → let later =
        (run
          (PaidTask.next_state_name digest)
          PaidTask.StateName.quoted
          is_result_valid
          PaidTask.invalid_transition
          s
          actions).store in
      create_clearing_split later splits'' result
      ≡ (later, (splits'', err PaidTask.invalid_transition))
unfolding create_clearing_split
create_clearing_split_once digest s tasks splits splits' splits'' result r actions h =
    let c = opened-IsClaimed tasks s.store splits splits' result r _ refl h in
    let gone =
      run-consumed (PaidTask.next_state_name digest) PaidTask.invalid_transition
        PaidTask.StateName.quoted is_result_valid s actions c.task c.consumed in
    rw (c.handle) (ap (opened splits'') (claim_consumed _ c.task gone))
