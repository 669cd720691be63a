-- ===== src/Lifecycle.antt =====
-- Issued states, as packages/core/src/paid-task-lifecycle.ts,
-- packages/core/src/offering-purchase-lifecycle.ts and packages/core/src/clearing-split-lifecycle.ts
-- keep them. The three files repeat one protocol: a state is an object that the module has issued,
-- with its name and its snapshot; a transition marks the state as transitioning, finds the name of
-- the successor, issues the successor, marks the state as consumed and clears the first mark on every
-- way out. It stands here once, over the names `N`, the snapshots `S`, the events `E` and the
-- function `next_state_name` of each file.
--
-- In paid-task-lifecycle.ts the name of the successor is awaited, so that other calls run between the
-- two halves of a transition: `begin_transition` is what runs before the `await`, `settle_transition`
-- what runs after it. The other two files run both without a break: `transition`.
pub mod State
pub mod Run
pub mod Pendings
pub mod Conservation
pub mod Provenance
pub mod Exclusion
pub mod Drive
pub mod History
pub mod Started
use tool.Common.{
  ℕ, zero, suc, ◌+◌, Bool, true, false, not, ◌&&◌, ◌||◌, Option, none, some, List, [], ◌∷◌, has,
  delete, if◌then◌else◌, Result, ok, err, Error,
}
use tool.Registry.{Registry, issue, get, find}
pub use State.{Handle, primitive, reference, Store, Pending, new_store}

module _ {N S : Type 0} where
  -- `issueState`
  unfoldable pub issue_state : N → S → Store N S → Store N S × ℕ
  issue_state name snapshot s =
      let (registry, r) = issue (name, snapshot) s.issued in (record s { issued = registry }, r)

  -- `snapshotForIssuedState`: `none` where the transition is rejected.
  unfoldable pub snapshot_for_issued_state : Store N S → ℕ → Option (N × S)
  unfolding has find
  snapshot_for_issued_state s r =
      if has s.consumed r || has s.transitioning r then none else get s.issued r

  -- A claim consumes a state of the wanted kind and hands out its snapshot.
  unfoldable pub claim : (N → Bool) → Error → Store N S → Handle → Store N S × Result S
  claim wanted rejected s primitive = (s, err rejected)
  claim wanted rejected s (reference r) = elim (snapshot_for_issued_state s r) [
    | none ↦ (s, err rejected)
    | some (name, snapshot) ↦
        if wanted name
        then (record s { consumed = r ∷ s.consumed }, ok snapshot)
        else (s, err rejected)
  ]

module _ {N S E : Type 0} (next_state_name : N → E → S → Result N) (rejected : Error) where
  unfoldable pub begin_transition : Store N S → Handle → E → Result (Store N S × Pending N S)
  begin_transition s primitive event = err rejected
  begin_transition s (reference r) event = elim (snapshot_for_issued_state s r) [
    | none ↦ err rejected
    | some (name, snapshot) ↦ ok (
      record s { transitioning = r ∷ s.transitioning },
      record { state = r; snapshot = snapshot; outcome = next_state_name name event snapshot },
    )
  ]

  unfoldable pub settle_transition : Store N S → Pending N S → Store N S × Result ℕ
  settle_transition s p = elim p.outcome [
    | err e ↦ (record s { transitioning = delete s.transitioning p.state }, err e)
    | ok name ↦
        let (s', successor) = issue_state name p.snapshot s in
        (
          record s' {
            consumed = p.state ∷ s'.consumed;
            transitioning = delete s'.transitioning p.state;
          },
          ok successor,
        )
  ]

  unfoldable pub transition : Store N S → Handle → E → Store N S × Result ℕ
  transition s state event = elim (begin_transition s state event) [
    | err e ↦ (s, err e)
    | ok (s', pending) ↦ settle_transition s' pending
  ]
