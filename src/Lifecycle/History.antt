-- ===== src/Lifecycle/History.antt =====
-- What made an issued state. Every run has a recorded one, in which the same functions run on names that
-- carry the events so far, the latest first: a transition that is allowed adds its event, and nothing
-- else does. Without the events the recorded run is the run.
use tool.Common.{
  ℕ, zero, suc, Bool, none, some, List, [], ◌∷◌, map, Result, ok, err, Error, ◌≡◌, refl, arith,
  Bool-cases, Option-cases, Result-cases, inl, inr, ap, ◌∙◌,
}
use tool.Registry.{get, find}
use tool.Lifecycle.State.{primitive, reference, Store, Pending}
use tool.Lifecycle.{
  claim, issue_state, begin_transition, settle_transition, snapshot_for_issued_state,
}
use tool.Lifecycle.Run.{
  Action, creates, starts, settles, claims, System, new_system, nth, without, act, run,
}

module _ {N E : Type 0} where
  abbrev pub recorded_name : (N → Bool) → N × List E → Bool
  recorded_name wanted (n, es) = wanted n

  abbrev bare_outcome : Result (N × List E) → Result N
  bare_outcome (ok (n, es)) = ok n
  bare_outcome (err x) = err x

module _ {N S E : Type 0} where
  abbrev pub recorded : (N → E → S → Result N) → N × List E → E → S → Result (N × List E)
  recorded next_state_name (n, es) e snapshot = elim (next_state_name n e snapshot) [
    | ok m ↦ ok (m, e ∷ es)
    | err x ↦ err x
  ]

  abbrev bare : ℕ × ((N × List E) × S) → ℕ × (N × S)
  bare (r, ((n, es), snapshot)) = (r, (n, snapshot))

  abbrev bare_store : Store (N × List E) S → Store N S
  bare_store s = record {
    issued = record { next = s.issued.next; entries = map bare s.issued.entries };
    consumed = s.consumed;
    transitioning = s.transitioning;
  }

  abbrev bare_pending : Pending (N × List E) S → Pending N S
  bare_pending p = record {
    state = p.state;
    snapshot = p.snapshot;
    outcome = bare_outcome p.outcome;
  }

  abbrev pub bare_system : System (N × List E) S → System N S
  bare_system s = record {
    store = bare_store s.store;
    pending = map bare_pending s.pending;
    created = s.created;
    claimed = s.claimed;
  }

  find-none :
      (r : ℕ) (l : List (ℕ × ((N × List E) × S))) → find r l ≡ none → find r (map bare l) ≡ none
  unfolding find
  find-none r [] h = refl
  find-none r ((j, ((n, es), snapshot)) ∷ l) h = ground (arith, find-none r l)

  find-some :
      (r : ℕ) (l : List (ℕ × ((N × List E) × S))) (n : N) (es : List E) (snapshot : S)
      → find r l ≡ some ((n, es), snapshot)
      → find r (map bare l) ≡ some (n, snapshot)
  unfolding find
  find-some r [] n es snapshot h = absurd (ground arith)
  find-some r ((j, ((m, fs), t)) ∷ l) n es snapshot h = ground (arith, find-some r l n es snapshot)

  nth-map :
      (i : ℕ) (ps : List (Pending (N × List E) S)) (p : Pending (N × List E) S)
      → nth i ps ≡ some p
      → nth i (map bare_pending ps) ≡ some (bare_pending p)
  nth-map i [] p h = absurd (ground arith)
  nth-map zero (q ∷ ps) p h = ground arith
  nth-map (suc i) (q ∷ ps) p h = nth-map i ps p h

  nth-map-none :
      (i : ℕ) (ps : List (Pending (N × List E) S))
      → nth i ps ≡ none
      → nth i (map bare_pending ps) ≡ none
  nth-map-none i [] h = refl
  nth-map-none zero (q ∷ ps) h = absurd (ground arith)
  nth-map-none (suc i) (q ∷ ps) h = nth-map-none i ps h

  without-map :
      (i : ℕ) (ps : List (Pending (N × List E) S))
      → map bare_pending (without i ps) ≡ without i (map bare_pending ps)
  without-map i [] = refl
  without-map zero (q ∷ ps) = refl
  without-map (suc i) (q ∷ ps) = ap (λ l. bare_pending q ∷ l) (without-map i ps)

  snapshot_none :
      (s : Store (N × List E) S) (r : ℕ)
      → snapshot_for_issued_state s r ≡ none
      → snapshot_for_issued_state (bare_store s) r ≡ none
  unfolding snapshot_for_issued_state
  snapshot_none s r h = ground (arith, find-none r s.issued.entries)

  snapshot_some :
      (s : Store (N × List E) S) (r : ℕ) (n : N) (es : List E) (snapshot : S)
      → snapshot_for_issued_state s r ≡ some ((n, es), snapshot)
      → snapshot_for_issued_state (bare_store s) r ≡ some (n, snapshot)
  unfolding snapshot_for_issued_state
  snapshot_some s r n es snapshot h = ground (arith, find-some r s.issued.entries n es snapshot)

  -- A recorded transition that is allowed is an allowed one, and adds its event.
  pub recorded-eq-ok :
      (next_state_name : N → E → S → Result N) (n m : N × List E) (e : E) (snapshot : S)
      → recorded next_state_name n e snapshot ≡ ok m
      → (next_state_name n.0 e snapshot ≡ ok m.0) × (m.1 ≡ e ∷ n.1)
  recorded-eq-ok next_state_name (n, es) (m, fs) e snapshot h =
      elim (Result-cases (next_state_name n e snapshot)) [
        | inl (k, q) ↦ ground arith
        | inr (x, q) ↦ absurd (ground arith)
      ]

  bare_outcome-recorded :
      (next_state_name : N → E → S → Result N) (n : N) (es : List E) (e : E) (snapshot : S)
      → bare_outcome (recorded next_state_name (n, es) e snapshot) ≡ next_state_name n e snapshot
  bare_outcome-recorded next_state_name n es e snapshot = ground arith

module _ {N S E : Type 0} (next_state_name : N → E → S → Result N) (initial : N) (wanted : N → Bool)
    (rejected : Error) where
  -- The run with the events that have led to each state.
  abbrev pub recorded_act : System (N × List E) S → Action S E → System (N × List E) S
  recorded_act = act (recorded next_state_name) (initial, []) (recorded_name wanted) rejected

  abbrev pub recorded_run : List (Action S E) → System (N × List E) S
  recorded_run =
      run (recorded next_state_name) (initial, []) (recorded_name wanted) rejected new_system

  settle-bare :
      (s : Store (N × List E) S) (p : Pending (N × List E) S) (outcome : Result (N × List E))
      → p.outcome ≡ outcome
      → bare_store (settle_transition (recorded next_state_name) rejected s p).0
        ≡ (settle_transition next_state_name rejected (bare_store s) (bare_pending p)).0
  unfolding settle_transition issue_state
  settle-bare s p (ok (m, es)) o = rw (o, settle_transition) refl
  settle-bare s p (err x) o = rw (o, settle_transition) refl

  act-bare :
      (s : System (N × List E) S) (a : Action S E)
      → bare_system (recorded_act s a)
        ≡ act next_state_name initial wanted rejected (bare_system s) a
  unfolding act begin_transition issue_state claim
  act-bare s (creates snapshot) = refl
  act-bare s (starts primitive e) = refl
  act-bare s (starts (reference r) e) = elim (Option-cases (snapshot_for_issued_state s.store r)) [
    | inl f ↦ let g = snapshot_none s.store r f in rw (f, g, act, begin_transition) refl
    | inr (((n, es), snapshot), f) ↦
        let g = snapshot_some s.store r n es snapshot f in
        let h = bare_outcome-recorded next_state_name n es e snapshot in
        rw (f, g, act, begin_transition) (rw h refl)
  ]
  act-bare s (settles i) = elim (Option-cases (nth i s.pending)) [
    | inl f ↦ let g = nth-map-none i s.pending f in rw (f, g, act) refl
    | inr (p, f) ↦
        let g = nth-map i s.pending p f in
        let h = settle-bare s.store p p.outcome refl in
        rw (f, g, act) (rw (h, without-map i s.pending) refl)
  ]
  act-bare s (claims primitive) = refl
  act-bare s (claims (reference r)) = elim (Option-cases (snapshot_for_issued_state s.store r)) [
    | inl f ↦ let g = snapshot_none s.store r f in rw (f, g, act, claim) refl
    | inr (((n, es), snapshot), f) ↦
        let g = snapshot_some s.store r n es snapshot f in
        elim (Bool-cases (wanted n)) [
          | inl accepted ↦ rw (f, g, act, claim) (rw accepted refl)
          | inr other ↦ rw (f, g, act, claim) (rw other refl)
        ]
  ]

  run-bare :
      (s : System (N × List E) S) (actions : List (Action S E))
      → bare_system
          (run (recorded next_state_name) (initial, []) (recorded_name wanted) rejected s actions)
        ≡ run next_state_name initial wanted rejected (bare_system s) actions
  unfolding run
  run-bare s [] = refl
  run-bare s (a ∷ rest) =
      run-bare (recorded_act s a) rest
      ∙ ap (λ t. run next_state_name initial wanted rejected t rest) (act-bare s a)

  find-recorded :
      (l : List (ℕ × ((N × List E) × S))) (r : ℕ) (n : N) (snapshot : S)
      → find r (map bare l) ≡ some (n, snapshot)
      → (es : List E) × (find r l ≡ some ((n, es), snapshot))
  find-recorded l r n snapshot h = elim (Option-cases (find r l)) [
    | inl f ↦ absurd (let g = find-none r l f in ground arith)
    | inr (((m, es), t), f) ↦ let g = find-some r l m es t f in (es, ground arith)
  ]

  -- A state that a run has issued has its events in the recorded one.
  pub run-recorded :
      (actions : List (Action S E)) (r : ℕ) (n : N) (snapshot : S)
      → get (run next_state_name initial wanted rejected new_system actions).store.issued r
        ≡ some (n, snapshot)
      → (es : List E) × (get (recorded_run actions).store.issued r ≡ some ((n, es), snapshot))
  run-recorded actions r n snapshot h =
      find-recorded (recorded_run actions).store.issued.entries r n snapshot
        (ap (λ s. get s.store.issued r) (run-bare new_system actions) ∙ h)
