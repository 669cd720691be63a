-- ===== src/Lifecycle/Started.antt =====
-- The events in the history of a state are events that the calls of the run have started.
use mathlib.Core.List.{Mem, mem-cons}
use mathlib.Core.Logic.Or
use tool.Common.{
  ℕ, Bool, some, List, [], ◌∷◌, Result, ok, err, Error, ◌≡◌, refl, arith, ◌==◌, Bool-cases,
  Option-cases, Result-cases, inl, inr, All,
}
use tool.Registry.{get, find}
use tool.Lifecycle.State.{Handle, primitive, reference, Pending}
use tool.Lifecycle.{issue_state, begin_transition, settle_transition, snapshot_for_issued_state}
use tool.Lifecycle.Pendings.{All-nth, All-without}
use tool.Lifecycle.Run.{
  Action, creates, starts, settles, claims, System, new_system, nth, without, act, run, claim_cases,
}
use tool.Lifecycle.History.{recorded, recorded_name, recorded_act, recorded_run}

module _ {S E : Type 0} (Started : E → Type 0) where
  abbrev IsGiven : Action S E → Type 0
  IsGiven (starts h e) = Started e
  IsGiven _ = Unit

module _ {N E : Type 0} (Started : E → Type 0) where
  abbrev Outcome : Result (N × List E) → Type 0
  Outcome (ok (n, es)) = All Started es
  Outcome (err x) = Unit

module _ {N S E : Type 0} (Started : E → Type 0) where
  abbrev Entry : ℕ × ((N × List E) × S) → Type 0
  Entry (r, ((n, es), snapshot)) = All Started es

  abbrev IsDue : Pending (N × List E) S → Type 0
  IsDue p = Outcome Started p.outcome

  record Inv (s : System (N × List E) S) : Type 0 where
    entries : All Entry s.store.issued.entries
    pending : All IsDue s.pending

  find-Started :
      (l : List (ℕ × ((N × List E) × S))) (r : ℕ) (n : N) (es : List E) (snapshot : S)
      → All Entry l
      → find r l ≡ some ((n, es), snapshot)
      → All Started es
  unfolding find
  find-Started [] r n es snapshot h e = absurd (ground arith)
  find-Started ((j, ((m, fs), t)) ∷ l) r n es snapshot h e = elim (Bool-cases (r == j)) [
    | inl same ↦ ground (arith, h.0)
    | inr other ↦ find-Started l r n es snapshot h.1 (rw other at e)
  ]

module _ {N S E : Type 0} (next_state_name : N → E → S → Result N) (Started : E → Type 0) where
  recorded-Outcome :
      (n : N) (es : List E) (e : E) (snapshot : S)
      → Started e
      → All Started es
      → Outcome Started (recorded next_state_name (n, es) e snapshot)
  recorded-Outcome n es e snapshot h k = elim (Result-cases (next_state_name n e snapshot)) [
    | inl (m, q) ↦ rw (q, Outcome) (h, k)
    | inr (x, q) ↦ rw (q, Outcome) tt
  ]

  module _ (initial : N) (wanted : N → Bool) (rejected : Error) where
    settle-Inv :
        (s : System (N × List E) S) (i : ℕ) (p : Pending (N × List E) S)
        (outcome : Result (N × List E))
        → Inv Started s
        → Outcome Started outcome
        → p.outcome ≡ outcome
        → Inv Started (record s {
          store = (settle_transition (recorded next_state_name) rejected s.store p).0;
          pending = without i s.pending;
        })
    unfolding settle_transition
    settle-Inv s i p (err x) v d o =
        rw (o, settle_transition)
          (record {
            entries = v.entries;
            pending = All-without (IsDue Started) i s.pending v.pending;
          })
    settle-Inv s i p (ok (m, es)) v d o =
        rw (o, settle_transition)
          (record {
            entries = unfold issue_state in (d, v.entries);
            pending = All-without (IsDue Started) i s.pending v.pending;
          })

    act-Inv :
        (s : System (N × List E) S) (a : Action S E)
        → IsGiven Started a
        → Inv Started s
        → Inv Started (recorded_act next_state_name initial wanted rejected s a)
    unfolding act begin_transition issue_state snapshot_for_issued_state
    act-Inv s (creates snapshot) g v = record { entries = (tt, v.entries); pending = v.pending }
    act-Inv s (starts primitive e) g v = v
    act-Inv s (starts (reference r) e) g v =
        elim (Option-cases (snapshot_for_issued_state s.store r)) [
          | inl refused ↦ rw (refused, act, begin_transition) v
          | inr (((n, es), snapshot), found) ↦
              let before =
                find-Started Started s.store.issued.entries r n es snapshot v.entries
                  (ground arith) in
              rw (found, act, begin_transition)
                (record {
                  entries = v.entries;
                  pending = (recorded-Outcome n es e snapshot g before, v.pending);
                })
        ]
    act-Inv s (settles i) g v = elim (Option-cases (nth i s.pending)) [
      | inl missing ↦ rw (missing, act) v
      | inr (p, found) ↦
          rw (found, act)
            (settle-Inv s i p p.outcome v (All-nth (IsDue Started) i s.pending p v.pending found)
              refl)
    ]
    act-Inv s (claims h) g v = elim (claim_cases (recorded_name wanted) rejected s.store h) [
      | inl refused ↦ rw (refused, act) v
      | inr (r, n, snapshot, claimed, _, _, _) ↦
          rw (claimed, act) (record { entries = v.entries; pending = v.pending })
    ]

    run-Inv :
        (s : System (N × List E) S) (actions : List (Action S E))
        → All (IsGiven Started) actions
        → Inv Started s
        → Inv Started
            (run (recorded next_state_name) (initial, []) (recorded_name wanted) rejected s actions)
    unfolding run
    run-Inv s [] g v = v
    run-Inv s (a ∷ rest) g v =
        run-Inv (recorded_act next_state_name initial wanted rejected s a) rest g.1
          (act-Inv s a g.0 v)

-- The event was started by a call of the schedule.
abbrev pub IsStarted : {S E : Type 0} → List (Action S E) → E → Type 0
IsStarted actions e = (h : Handle) × Mem (starts h e) actions

all-IsGiven :
    {S E : Type 0} (whole actions : List (Action S E))
    → ((a : Action S E) → Mem a actions → Mem a whole)
    → All (IsGiven (IsStarted whole)) actions
all-IsGiven whole [] f = tt
all-IsGiven whole (creates s ∷ rest) f =
    (tt, all-IsGiven whole rest (λ b m. f b (mem-cons.1 (Or.inr m))))
all-IsGiven whole (starts h e ∷ rest) f = (
  (h, f (starts h e) (mem-cons.1 (Or.inl refl))),
  all-IsGiven whole rest (λ b m. f b (mem-cons.1 (Or.inr m))),
)
all-IsGiven whole (settles i ∷ rest) f =
    (tt, all-IsGiven whole rest (λ b m. f b (mem-cons.1 (Or.inr m))))
all-IsGiven whole (claims h ∷ rest) f =
    (tt, all-IsGiven whole rest (λ b m. f b (mem-cons.1 (Or.inr m))))

-- Every event in the history of a state was started by a call of the run.
pub run-IsStarted :
    {N S E : Type 0} (next_state_name : N → E → S → Result N) (initial : N) (wanted : N → Bool)
    (rejected : Error) (actions : List (Action S E)) (r : ℕ) (n : N) (es : List E) (snapshot : S)
    → get (recorded_run next_state_name initial wanted rejected actions).store.issued r
      ≡ some ((n, es), snapshot)
    → All (IsStarted actions) es
run-IsStarted next_state_name initial wanted rejected actions r n es snapshot found =
    let v =
      run-Inv next_state_name (IsStarted actions) initial wanted rejected new_system actions
        (all-IsGiven actions actions (λ a m. m)) (record { entries = tt; pending = tt }) in
    find-Started (IsStarted actions)
      (recorded_run next_state_name initial wanted rejected actions).store.issued.entries r n es
      snapshot v.entries found
