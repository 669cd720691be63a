-- ===== src/Lifecycle/State.antt =====
-- The module-level state of a lifecycle, and the values that are passed for a state.
use tool.Common.{ℕ, List, [], Result}
use tool.Registry.{Registry, empty}

-- What is passed as a state: no object, or an object by its identity.
pub data Handle : Type 0 where
  primitive : Handle
  reference : ℕ → Handle

-- `snapshotByIssuedState` with `stateNameByIssuedState`, `consumedStates` and `transitioningStates`.
pub record Store (N S : Type 0) : Type 0 where
  pub issued : Registry (N × S)
  pub consumed : List ℕ
  pub transitioning : List ℕ

abbrev pub new_store : {N S : Type 0} → Store N S
new_store = record { issued = empty; consumed = []; transitioning = [] }

-- A transition between its two halves.
pub record Pending (N S : Type 0) : Type 0 where
  pub state : ℕ
  pub snapshot : S
  pub outcome : Result N
