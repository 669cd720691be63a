-- ===== src/Lifecycle/Conservation.antt =====
-- No schedule of calls makes two states out of one.
use tool.Common.{
  ℕ, suc, ◌+◌, ◌<◌, Bool, false, some, List, [], ◌∷◌, has, delete, Result, ok, err, Error, ◌≡◌,
  refl, arith, ◌==◌, Option-cases, inl, inr, All, ap,
}
use tool.Registry.{get, find, Below, find-lt}
use tool.Lifecycle.State.{primitive, reference, Store, Pending}
use tool.Lifecycle.{issue_state, begin_transition, settle_transition, snapshot_for_issued_state}
use tool.Lifecycle.Pendings.{
  Distinct, has_above, All-lt-suc, live, live-fresh, live-consume, refs, delete-refs,
  Distinct-without, All-nth, All-without, All-absent, All-apart, All-map, All-map₂,
}
use tool.Lifecycle.Run.{
  Action, creates, starts, settles, claims, System, new_system, nth, without, act, run, claim_cases,
}

has-cons :
    (r : ℕ) (xs : List ℕ) (q : ℕ) → (r == q) ≡ false → has xs q ≡ false → has (r ∷ xs) q ≡ false
unfolding has
has-cons r xs q h k = ground arith

module _ {N S : Type 0} where
  -- A state whose transition is under way: issued with the snapshot at hand, and not consumed.
  pub record IsOpen (s : Store N S) (p : Pending N S) : Type 0 where
    pub name : N
    pub issued : get s.issued p.state ≡ some (name, p.snapshot)
    pub unconsumed : has s.consumed p.state ≡ false

  pub record Inv (s : System N S) : Type 0 where
    pub below : Below s.store.issued.next s.store.issued.entries
    pub past : All (λ r. r < s.store.issued.next) s.store.consumed
    pub once : Distinct s.store.consumed
    pub marks : s.store.transitioning ≡ refs s.pending
    pub distinct : Distinct (refs s.pending)
    pub all_open : All (IsOpen s.store) s.pending
    pub conserved : live s.store.issued.entries s.store.consumed + s.claimed ≡ s.created

  IsOpen-issue :
      (n : N) (snapshot : S) (s : Store N S) (q : Pending N S)
      → Below s.issued.next s.issued.entries
      → IsOpen s q
      → IsOpen (issue_state n snapshot s).0 q
  unfolding issue_state find
  IsOpen-issue n snapshot s q b o = record {
    name = o.name;
    issued =
        ground
          (arith, o.issued, find-lt q.state s.issued.next s.issued.entries (o.name, q.snapshot) b);
    unconsumed = o.unconsumed;
  }

  issue-Inv :
      (n : N) (snapshot : S) (s : System N S)
      → Inv s
      → Inv (record s { store = (issue_state n snapshot s.store).0; created = suc s.created })
  unfolding issue_state
  issue-Inv n snapshot s v =
      let fresh = has_above s.store.consumed s.store.issued.next v.past in
      record {
        below = (omega arith, v.below);
        past = All-lt-suc s.store.consumed s.store.issued.next v.past;
        once = v.once;
        marks = v.marks;
        distinct = v.distinct;
        all_open =
            All-map (IsOpen s.store) _ s.pending
              (λ q o. IsOpen-issue n snapshot s.store q v.below o) v.all_open;
        conserved =
            rw
              (live-fresh s.store.issued.entries s.store.consumed s.store.issued.next (n, snapshot)
                fresh)
              (omega (arith, v.conserved));
      }

  begin-Inv :
      (s : System N S) (r : ℕ) (n : N) (snapshot : S) (outcome : Result N)
      → Inv s
      → snapshot_for_issued_state s.store r ≡ some (n, snapshot)
      → Inv (record s {
        store = record (s.store) { transitioning = r ∷ s.store.transitioning };
        pending = record { state = r; snapshot = snapshot; outcome = outcome } ∷ s.pending;
      })
  unfolding snapshot_for_issued_state
  begin-Inv s r n snapshot outcome v e = record {
    below = v.below;
    past = v.past;
    once = v.once;
    marks = ap (λ l. r ∷ l) v.marks;
    distinct = (rw (← v.marks) (ground arith), v.distinct);
    all_open = (
      record { name = n; issued = ground arith; unconsumed = ground arith },
      All-map (IsOpen s.store) _ s.pending
          (λ q o. record { name = o.name; issued = o.issued; unconsumed = o.unconsumed })
          v.all_open,
    );
    conserved = v.conserved;
  }

  -- A transition that fails leaves its state as it was, and no longer marked.
  abandon-Inv :
      (s : System N S) (i : ℕ) (p : Pending N S)
      → Inv s
      → nth i s.pending ≡ some p
      → Inv (record s {
        store = record (s.store) { transitioning = delete s.store.transitioning p.state };
        pending = without i s.pending;
      })
  abandon-Inv s i p v e = record {
    below = v.below;
    past = v.past;
    once = v.once;
    marks = rw v.marks (delete-refs i s.pending p v.distinct e);
    distinct = Distinct-without i s.pending v.distinct;
    all_open =
        All-map (IsOpen s.store) _ (without i s.pending)
          (λ q o. record { name = o.name; issued = o.issued; unconsumed = o.unconsumed })
          (All-without (IsOpen s.store) i s.pending v.all_open);
    conserved = v.conserved;
  }

  -- Consuming a state that is issued, is not consumed and has no transition under way.
  consume-Inv :
      (s : System N S) (r : ℕ) (n : N) (snapshot : S)
      → Inv s
      → get s.store.issued r ≡ some (n, snapshot)
      → has s.store.consumed r ≡ false
      → All (λ q. (r == q.state) ≡ false) s.pending
      → Inv (record s {
        store = record (s.store) { consumed = r ∷ s.store.consumed };
        claimed = suc s.claimed;
      })
  consume-Inv s r n snapshot v g h apart = record {
    below = v.below;
    past = (find-lt r s.store.issued.next s.store.issued.entries (n, snapshot) v.below g, v.past);
    once = (h, v.once);
    marks = v.marks;
    distinct = v.distinct;
    all_open =
        All-map₂ _ _ _ s.pending
          (λ q o a. record {
            name = o.name;
            issued = o.issued;
            unconsumed = has-cons r s.store.consumed q.state a o.unconsumed;
          })
          v.all_open apart;
    conserved = omega (
      arith,
      v.conserved,
      live-consume s.store.issued.entries s.store.consumed r s.store.issued.next (n, snapshot)
          v.below g h,
    );
  }

  uncount :
      (s : System N S) → Inv (record s { created = suc s.created; claimed = suc s.claimed }) → Inv s
  uncount s v = record {
    below = v.below;
    past = v.past;
    once = v.once;
    marks = v.marks;
    distinct = v.distinct;
    all_open =
        All-map _ _ s.pending
          (λ q o. record { name = o.name; issued = o.issued; unconsumed = o.unconsumed })
          v.all_open;
    conserved = omega (arith, v.conserved);
  }

module _ {N S E : Type 0} (next_state_name : N → E → S → Result N) (initial : N) (wanted : N → Bool)
    (rejected : Error) where
  settle-Inv :
      (s : System N S) (i : ℕ) (p : Pending N S) (outcome : Result N)
      → Inv s
      → nth i s.pending ≡ some p
      → p.outcome ≡ outcome
      → Inv (record s {
        store = (settle_transition next_state_name rejected s.store p).0;
        pending = without i s.pending;
      })
  unfolding settle_transition
  settle-Inv s i p (err x) v e o = rw (o, settle_transition) (abandon-Inv s i p v e)
  settle-Inv s i p (ok name) v e o =
      let open_p = All-nth (IsOpen s.store) i s.pending p v.all_open e in
      let abandoned = abandon-Inv s i p v e in
      let consumed =
        consume-Inv _ p.state open_p.name p.snapshot abandoned open_p.issued open_p.unconsumed
          (All-apart i s.pending p v.distinct e) in
      rw (o, settle_transition)
        (uncount _ (unfold issue_state in issue-Inv name p.snapshot _ consumed))

  claim-Inv :
      (s : System N S) (r : ℕ) (n : N) (snapshot : S)
      → Inv s
      → snapshot_for_issued_state s.store r ≡ some (n, snapshot)
      → Inv (record s {
        store = record (s.store) { consumed = r ∷ s.store.consumed };
        claimed = suc s.claimed;
      })
  unfolding snapshot_for_issued_state
  claim-Inv s r n snapshot v e =
      consume-Inv s r n snapshot v (ground arith) (ground arith)
        (All-absent r s.pending (rw (← v.marks) (ground arith)))

  -- Every call keeps the invariant.
  act-Inv :
      (s : System N S) (a : Action S E)
      → Inv s
      → Inv (act next_state_name initial wanted rejected s a)
  unfolding act begin_transition
  act-Inv s (creates snapshot) v = issue-Inv initial snapshot s v
  act-Inv s (starts primitive e) v = v
  act-Inv s (starts (reference r) e) v = elim (Option-cases (snapshot_for_issued_state s.store r)) [
    | inl refused ↦ rw (refused, act, begin_transition) v
    | inr ((n, snapshot), found) ↦
        rw (found, act, begin_transition)
          (begin-Inv s r n snapshot (next_state_name n e snapshot) v found)
  ]
  act-Inv s (settles i) v = elim (Option-cases (nth i s.pending)) [
    | inl missing ↦ rw (missing, act) v
    | inr (p, found) ↦ rw (found, act) (settle-Inv s i p p.outcome v found refl)
  ]
  act-Inv s (claims h) v = elim (claim_cases wanted rejected s.store h) [
    | inl refused ↦ rw (refused, act) v
    | inr (r, n, snapshot, claimed, found, _, _) ↦
        rw (claimed, act) (claim-Inv s r n snapshot v found)
  ]

  run_from-Inv :
      (s : System N S) (actions : List (Action S E))
      → Inv s
      → Inv (run next_state_name initial wanted rejected s actions)
  unfolding run
  run_from-Inv s [] v = v
  run_from-Inv s (a ∷ rest) v =
      run_from-Inv (act next_state_name initial wanted rejected s a) rest (act-Inv s a v)

  new-Inv : Inv {N = N} {S = S} new_system
  unfolding live
  new-Inv = record {
    below = tt;
    past = tt;
    once = tt;
    marks = refl;
    distinct = tt;
    all_open = tt;
    conserved = omega arith;
  }

  -- Whatever the calls and however the halves of the transitions interleave: no state is consumed
  -- twice; a transition that is under way is of a state that is issued, is marked and is not consumed,
  -- and no two are of one state; and the states that are not consumed, with those that were claimed,
  -- are as many as those that were created.
  pub run-Inv :
      (actions : List (Action S E))
      → Inv (run next_state_name initial wanted rejected new_system actions)
  run-Inv actions = run_from-Inv new_system actions new-Inv
