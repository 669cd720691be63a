-- ===== src/PaidTask.antt =====
-- packages/core/src/paid-task-lifecycle.ts: a paid task from its quote to its result.
--
-- The requirements of an event are digested before the first `await`, so that the outcome of a
-- transition is fixed when it begins; `digest` is `sha256Requirements` of Requirements.antt at a heap.
pub mod Tests
pub mod Payment
pub mod Quote
use tool.Common.{
  ℕ, Bool, true, false, not, ◌||◌, Option, none, some, List, [], ◌∷◌, length, ltb, leb, ◌==◌,
  if◌then◌else◌, Result, ok, err, Error, type_error, ◌>>=◌, ◌>>◌, throw_if,
}
use tool.Common.Text.{Text, ◌===◌, trim}
use tool.Js.{Value, string}
use tool.Timestamp.{parse_canonical_utc_milliseconds}
use tool.Lifecycle.{
  Handle, Store, Pending, new_store, issue_state, claim, begin_transition, settle_transition,
}

pub data StateName : Type 0 where
  quoted expired payment_submitted payment_rejected payment_outcome_unknown payment_settled
        execution_started result_valid execution_failed response_outcome_unknown :
      StateName

pub record PaidTaskInput : Type 0 where
  pub task_ref : Value
  pub offering_version : Value
  pub requirements : Value
  pub expires_at : Value

pub record PaidTaskSnapshot : Type 0 where
  pub task_ref : Text
  pub offering_version : Text
  pub requirements_digest : Text
  pub expires_at : Text

pub data Event : Type 0 where
  expire : (observed_at : Value) → Event
  submits_payment : (observed_at : Value) → (requirements : Value) → Event
  rejects_payment loses_payment settles_payment starts_execution : Event
  gives_result fails_execution loses_response : Event

abbrev pub invalid_transition : Error
invalid_transition = type_error "invalid paid task transition"

unfoldable pub bounded_reference : Value → Result Text
unfolding ◌===◌ trim
bounded_reference (string value) =
    if length value == 0 || ltb 96 (length value) || not (trim value === value)
    then err
        (type_error "task references must be trimmed nonblank strings of at most 96 characters")
    else ok value
bounded_reference _ =
    err (type_error "task references must be trimmed nonblank strings of at most 96 characters")

-- `expiresAt` after its check: the text that has been parsed.
abbrev pub text_of : Value → Text
text_of (string s) = s
text_of _ = []

module _ (digest : Value → Result Text) where
  abbrev submit_when : ℕ → ℕ → Value → PaidTaskSnapshot → Result StateName
  submit_when observed expires requirements snapshot =
      if leb expires observed
      then err invalid_transition
      else (digest requirements >>= λ submitted.
          if submitted === snapshot.requirements_digest
          then ok payment_submitted
          else err invalid_transition)

  unfoldable pub next_state_name : StateName → Event → PaidTaskSnapshot → Result StateName
  next_state_name quoted (expire observed_at) snapshot = do
    observed ← parse_canonical_utc_milliseconds observed_at
    expires ← parse_canonical_utc_milliseconds (string snapshot.expires_at)
    if leb expires observed then ok expired else err invalid_transition
  next_state_name quoted (submits_payment observed_at requirements) snapshot = do
    observed ← parse_canonical_utc_milliseconds observed_at
    expires ← parse_canonical_utc_milliseconds (string snapshot.expires_at)
    submit_when observed expires requirements snapshot
  next_state_name payment_submitted rejects_payment snapshot = ok payment_rejected
  next_state_name payment_submitted loses_payment snapshot = ok payment_outcome_unknown
  next_state_name payment_submitted settles_payment snapshot = ok payment_settled
  next_state_name payment_settled starts_execution snapshot = ok execution_started
  next_state_name execution_started gives_result snapshot = ok result_valid
  next_state_name execution_started fails_execution snapshot = ok execution_failed
  next_state_name execution_started loses_response snapshot = ok response_outcome_unknown
  next_state_name _ _ snapshot = err invalid_transition

  -- The snapshot of a new task; the digest is awaited before the state is issued.
  unfoldable pub create_snapshot : PaidTaskInput → Result PaidTaskSnapshot
  create_snapshot input = do
    task_ref ← bounded_reference input.task_ref
    offering_version ← bounded_reference input.offering_version
    time ← parse_canonical_utc_milliseconds input.expires_at
    requirements_digest ← digest input.requirements
    ok (record {
      task_ref = task_ref;
      offering_version = offering_version;
      requirements_digest = requirements_digest;
      expires_at = text_of input.expires_at;
    })

  abbrev pub Tasks : Type 0
  Tasks = Store StateName PaidTaskSnapshot

  unfoldable pub create_paid_task : Tasks → PaidTaskInput → Tasks × Result ℕ
  create_paid_task tasks input = elim (create_snapshot input) [
    | err e ↦ (tasks, err e)
    | ok snapshot ↦ let (tasks', r) = issue_state quoted snapshot tasks in (tasks', ok r)
  ]

  -- `transitionPaidTask` up to its `await`, and from there on.
  unfoldable pub begin_paid_task :
      Tasks → Handle → Event → Result (Tasks × Pending StateName PaidTaskSnapshot)
  unfolding begin_transition next_state_name
  begin_paid_task = begin_transition next_state_name invalid_transition

  unfoldable pub settle_paid_task : Tasks → Pending StateName PaidTaskSnapshot → Tasks × Result ℕ
  unfolding settle_transition next_state_name
  settle_paid_task = settle_transition next_state_name invalid_transition

abbrev pub is_result_valid : StateName → Bool
is_result_valid result_valid = true
is_result_valid _ = false

unfoldable pub claim_paid_task_result_for_clearing :
    Store StateName PaidTaskSnapshot
    → Handle
    → Store StateName PaidTaskSnapshot × Result PaidTaskSnapshot
unfolding claim
claim_paid_task_result_for_clearing = claim is_result_valid invalid_transition
