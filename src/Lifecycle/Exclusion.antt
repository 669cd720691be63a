-- ===== src/Lifecycle/Exclusion.antt =====
-- A state is used once: what a transition does that succeeds, that fails, that finds another one of
-- the same state under way, or that comes after one of the same state.
use tool.Common.{
  ℕ, suc, Bool, true, false, none, some, List, [], ◌∷◌, has, delete, Result, ok, err, Error, ◌≡◌,
  refl, arith, ==_refl, Option-cases, inl, inr, Result-cases, sym, ap, ◌∙◌, ok-injective,
}
use mathlib.Core.Path.{subst₂}
use tool.Registry.{get, find}
use tool.Lifecycle.State.{Handle, primitive, reference, Store, Pending}
use tool.Lifecycle.{
  issue_state, claim, begin_transition, settle_transition, transition, snapshot_for_issued_state,
}
use tool.Lifecycle.Conservation
use tool.Lifecycle.Pendings.{delete_absent, has-nth}
use tool.Lifecycle.Run.{
  Action, creates, starts, settles, claims, System, new_system, nth, act, run, claim_cases,
}

module _ {N S E : Type 0} (next_state_name : N → E → S → Result N) (rejected : Error) where
  -- What a transition that succeeds has done.
  pub record IsTransition (s s' : Store N S) (r : ℕ) (e : E) (successor : ℕ) : Type 0 where
    pub name : N
    pub next_name : N
    pub snapshot : S
    pub was_issued : get s.issued r ≡ some (name, snapshot)
    pub was_unconsumed : has s.consumed r ≡ false
    pub allowed : next_state_name name e snapshot ≡ ok next_name
    pub issued : get s'.issued successor ≡ some (next_name, snapshot)
    pub consumed : s'.consumed ≡ r ∷ s.consumed
    pub unmarked : s'.transitioning ≡ s.transitioning

  restored : (xs : List ℕ) (r : ℕ) → has xs r ≡ false → delete (r ∷ xs) r ≡ xs
  unfolding delete
  restored xs r h = ground (arith, delete_absent xs r h)

  not_transitioning :
      (s : Store N S) (r : ℕ) (x : N × S)
      → snapshot_for_issued_state s r ≡ some x
      → has s.transitioning r ≡ false
  unfolding snapshot_for_issued_state
  not_transitioning s r x f = ground arith

  fails :
      (s : Store N S) (r : ℕ) (e : E) (n : N) (snapshot : S) (x : Error)
      → snapshot_for_issued_state s r ≡ some (n, snapshot)
      → next_state_name n e snapshot ≡ err x
      → transition next_state_name rejected s (reference r) e ≡ (s, err x)
  unfolding transition begin_transition settle_transition
  fails s r e n snapshot x f q =
      rw (f, transition, begin_transition)
        (rw (q, settle_transition) (rw (restored s.transitioning r (not_transitioning s r _ f))))

  -- The store after a transition that succeeds.
  abbrev succeeded : Store N S → ℕ → N → S → Store N S
  succeeded s r m snapshot = record {
    issued = record {
      next = suc s.issued.next;
      entries = (s.issued.next, (m, snapshot)) ∷ s.issued.entries;
    };
    consumed = r ∷ s.consumed;
    transitioning = s.transitioning;
  }

  succeeds :
      (s : Store N S) (r : ℕ) (e : E) (n m : N) (snapshot : S)
      → snapshot_for_issued_state s r ≡ some (n, snapshot)
      → next_state_name n e snapshot ≡ ok m
      → transition next_state_name rejected s (reference r) e
        ≡ (succeeded s r m snapshot, ok s.issued.next)
  unfolding transition issue_state begin_transition settle_transition
  succeeds s r e n m snapshot f q =
      rw (f, transition, begin_transition)
        (rw (q, settle_transition) (rw (restored s.transitioning r (not_transitioning s r _ f))))

  refused :
      (s : Store N S) (r : ℕ) (e : E)
      → snapshot_for_issued_state s r ≡ none
      → transition next_state_name rejected s (reference r) e ≡ (s, err rejected)
  unfolding transition begin_transition
  refused s r e f = rw (f, transition, begin_transition)

  IsTransition-succeeded :
      (s : Store N S) (r : ℕ) (e : E) (n m : N) (snapshot : S)
      → snapshot_for_issued_state s r ≡ some (n, snapshot)
      → next_state_name n e snapshot ≡ ok m
      → IsTransition s (succeeded s r m snapshot) r e s.issued.next
  unfolding snapshot_for_issued_state find
  IsTransition-succeeded s r e n m snapshot f q = record {
    name = n;
    next_name = m;
    snapshot = snapshot;
    was_issued = ground arith;
    was_unconsumed = ground arith;
    allowed = q;
    issued = ground (arith, ==_refl s.issued.next);
    consumed = refl;
    unmarked = refl;
  }

  -- A transition without a break that returns takes an issued state that is not consumed to the
  -- successor that its name, its snapshot and the event give; it consumes the state, keeps the snapshot
  -- and clears its mark.
  pub transition-IsTransition :
      (s s' : Store N S) (r : ℕ) (e : E) (successor : ℕ)
      → transition next_state_name rejected s (reference r) e ≡ (s', ok successor)
      → IsTransition s s' r e successor
  transition-IsTransition s s' r e successor h =
      elim (Option-cases (snapshot_for_issued_state s r)) [
        | inl f ↦ absurd (cc (refused s r e f))
        | inr ((n, snapshot), f) ↦ elim (Result-cases (next_state_name n e snapshot)) [
          | inl (m, q) ↦
              let p = sym (succeeds s r e n m snapshot f q) ∙ h in
              subst₂ (λ t k. IsTransition s t r e k) (ap (λ x. x.0) p)
                (ok-injective (ap (λ x. x.1) p)) (IsTransition-succeeded s r e n m snapshot f q)
          | inr (x, q) ↦ absurd (cc (fails s r e n snapshot x f q))
        ]
      ]

  -- A transition without a break that throws leaves the module's state as it was.
  pub transition_error :
      (s s' : Store N S) (h : Handle) (e : E) (x : Error)
      → transition next_state_name rejected s h e ≡ (s', err x)
      → s' ≡ s
  transition_error s s' primitive e x q = unfold transition begin_transition in ground arith
  transition_error s s' (reference r) e x h = elim (Option-cases (snapshot_for_issued_state s r)) [
    | inl f ↦ cc (refused s r e f)
    | inr ((n, snapshot), f) ↦ elim (Result-cases (next_state_name n e snapshot)) [
      | inl (m, q) ↦ absurd (cc (succeeds s r e n m snapshot f q))
      | inr (y, q) ↦ cc (fails s r e n snapshot y f q)
    ]
  ]

  marked_rejected :
      (s : Store N S) (r : ℕ) (e : E)
      → has s.transitioning r ≡ true
      → begin_transition next_state_name rejected s (reference r) e ≡ err rejected
  unfolding begin_transition snapshot_for_issued_state
  marked_rejected s r e h = ground arith

  marked_unclaimed :
      (wanted : N → Bool) (s : Store N S) (r : ℕ)
      → has s.transitioning r ≡ true
      → claim wanted rejected s (reference r) ≡ (s, err rejected)
  unfolding claim snapshot_for_issued_state
  marked_unclaimed wanted s r h = ground arith

  consumed_rejected :
      (s : Store N S) (r : ℕ) (e : E)
      → has s.consumed r ≡ true
      → begin_transition next_state_name rejected s (reference r) e ≡ err rejected
  unfolding begin_transition snapshot_for_issued_state
  consumed_rejected s r e h = ground arith

  -- After a transition of a state has succeeded, every later transition of it is rejected, whatever
  -- is called in between.
  module _ (initial : N) (wanted : N → Bool) where
    act-consumed :
        (s : System N S) (a : Action S E) (r : ℕ)
        → has s.store.consumed r ≡ true
        → has (act next_state_name initial wanted rejected s a).store.consumed r ≡ true
    unfolding act begin_transition settle_transition issue_state has
    act-consumed s (creates snapshot) r h = h
    act-consumed s (starts primitive e) r h = h
    act-consumed s (starts (reference k) e) r h = ground arith
    act-consumed s (settles i) r h = ground arith
    act-consumed s (claims k) r h = elim (claim_cases wanted rejected s.store k) [
      | inl no_claim ↦ rw (no_claim, act) h
      | inr (j, n, snapshot, claimed, _, _, _) ↦ rw (claimed, act) (ground arith)
    ]

    pub run-consumed :
        (s : System N S) (actions : List (Action S E)) (r : ℕ)
        → has s.store.consumed r ≡ true
        → has (run next_state_name initial wanted rejected s actions).store.consumed r ≡ true
    unfolding run
    run-consumed s [] r h = h
    run-consumed s (a ∷ rest) r h =
        run-consumed (act next_state_name initial wanted rejected s a) rest r (act-consumed s a r h)

    -- Once a state is consumed, every transition of it is rejected, whatever the calls in between and
    -- however they interleave.
    pub consumed_forever :
        (s : System N S) (actions : List (Action S E)) (r : ℕ) (e : E)
        → has s.store.consumed r ≡ true
        → begin_transition next_state_name rejected
            (run next_state_name initial wanted rejected s actions).store
            (reference r)
            e
          ≡ err rejected
    consumed_forever s actions r e h =
        consumed_rejected (run next_state_name initial wanted rejected s actions).store r e
          (run-consumed s actions r h)

    -- After any calls, however they interleave: a state with a transition that was started and is not
    -- settled can neither start another transition nor be claimed; both are rejected.
    pub begin_exclusive :
        (actions : List (Action S E)) (i : ℕ) (p : Pending N S) (e : E)
        → nth i (run next_state_name initial wanted rejected new_system actions).pending ≡ some p
        → (begin_transition next_state_name rejected
              (run next_state_name initial wanted rejected new_system actions).store
              (reference p.state)
              e
            ≡ err rejected)
          × (claim wanted rejected
                (run next_state_name initial wanted rejected new_system actions).store
                (reference p.state)
              ≡ (
                (run next_state_name initial wanted rejected new_system actions).store,
                err rejected,
              ))
    begin_exclusive actions i p e h =
        let s = run next_state_name initial wanted rejected new_system actions in
        let v = Conservation.run-Inv next_state_name initial wanted rejected actions in
        let marked = ap (λ l. has l p.state) v.marks ∙ has-nth i s.pending p h in
        (marked_rejected s.store p.state e marked, marked_unclaimed wanted s.store p.state marked)
