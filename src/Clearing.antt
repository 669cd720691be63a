-- ===== src/Clearing.antt =====
-- packages/core/src/clearing-split-lifecycle.ts: the split of a claimed result between reserve and
-- issuer, with retries. The event is any value of the host; its type is read by reflection.
pub mod Tests
pub mod Retries
pub mod Claims
use tool.Common.{
  ℕ, Bool, true, false, not, Option, none, some, List, [], ◌∷◌, Result, ok, err, Error, type_error,
  ◌>>=◌, ◌>>◌, if◌then◌else◌,
}
use tool.Common.Text.{Text, codes, ◌===◌}
use tool.Js.{
  Value, string, object, Key, name, Descriptor, data_property, accessor_property, Object, Heap,
  is_object_prototype,
}
use tool.Lifecycle.{Handle, Store, issue_state, snapshot_for_issued_state, transition}
use tool.PaidTask
use tool.PaidTask.{PaidTaskSnapshot, claim_paid_task_result_for_clearing}

pub data StateName : Type 0 where
  split_required split_submitted split_outcome_unknown split_confirmed : StateName

pub data EventType : Type 0 where
  submit confirm outcome_unknown non_execution_proven : EventType

abbrev pub invalid_transition : Error
invalid_transition = type_error "invalid clearing split transition"

-- The `switch` over the value of `type`.
unfoldable pub event_named : Value → Result EventType
event_named (string s) =
    if s === codes "submit"
    then ok submit
    else if s === codes "confirm"
    then ok confirm
    else if s === codes "outcome_unknown"
    then ok outcome_unknown
    else if s === codes "non_execution_proven"
    then ok non_execution_proven
    else err invalid_transition
event_named _ = err invalid_transition

abbrev only_type : List Key → Bool
only_type (name k ∷ []) = k === codes "type"
only_type _ = false

unfoldable pub event_of : Object → Result EventType
event_of o = elim (o.descriptor (name (codes "type"))) [
  | none ↦ err invalid_transition
  | some none ↦ err invalid_transition
  | some (some (accessor_property e)) ↦ err invalid_transition
  | some (some (data_property e v)) ↦ if e then event_named v else err invalid_transition
]

unfoldable pub event_type : Heap → Value → Result EventType
event_type h (object r) = elim (h r).prototype [
  | none ↦ err invalid_transition
  | some p ↦
      if is_object_prototype p
      then (elim (h r).own_keys [
        | none ↦ err invalid_transition
        | some keys ↦ if only_type keys then event_of (h r) else err invalid_transition
      ])
      else err invalid_transition
]
event_type h _ = err invalid_transition

unfoldable pub next_state_name : StateName → EventType → Result StateName
next_state_name split_required submit = ok split_submitted
next_state_name split_submitted confirm = ok split_confirmed
next_state_name split_submitted outcome_unknown = ok split_outcome_unknown
next_state_name split_outcome_unknown confirm = ok split_confirmed
next_state_name split_outcome_unknown non_execution_proven = ok split_required
next_state_name _ _ = err invalid_transition

-- `nextStateName(issued.state, eventType(event))`; it does not depend on the snapshot.
unfoldable pub next_by_event : Heap → StateName → Value → PaidTaskSnapshot → Result StateName
next_by_event h state event snapshot = event_type h event >>= next_state_name state

abbrev pub Splits : Type 0
Splits = Store StateName PaidTaskSnapshot

abbrev pub Tasks : Type 0
Tasks = Store PaidTask.StateName PaidTaskSnapshot

abbrev pub opened : Splits → Tasks × Result PaidTaskSnapshot → Tasks × (Splits × Result ℕ)
opened s (t, err e) = (t, (s, err e))
opened s (t, ok snapshot) = let (s', r) = issue_state split_required snapshot s in (t, (s', ok r))

-- The claim of the result, in the module of paid tasks, and the first state of the split.
unfoldable pub create_clearing_split : Tasks → Splits → Handle → Tasks × (Splits × Result ℕ)
create_clearing_split tasks splits result =
    opened splits (claim_paid_task_result_for_clearing tasks result)

unfoldable pub transition_clearing_split : Heap → Splits → Handle → Value → Splits × Result ℕ
transition_clearing_split h = transition (next_by_event h) invalid_transition
