-- ===== src/Lifecycle/Provenance.antt =====
-- Where an issued state comes from: transitions of `next_state_name` from the initial one, all with
-- one snapshot.
use tool.Common.{
  ℕ, Bool, some, List, [], ◌∷◌, Result, ok, err, Error, ◌≡◌, refl, sym, ◌∙◌, arith, ◌==◌,
  Bool-cases, Option-cases, inl, inr, All,
}
use tool.Registry.{get, find}
use tool.Lifecycle.State.{primitive, reference, Pending}
use tool.Lifecycle.{issue_state, begin_transition, settle_transition, snapshot_for_issued_state}
use tool.Lifecycle.Pendings.{All-nth, All-without}
use tool.Lifecycle.Run.{
  Action, creates, starts, settles, claims, System, new_system, nth, without, act, run, claim_cases,
}

module _ {N S E : Type 0} (next_state_name : N → E → S → Result N) (initial : N) where
  pub data Reach (snapshot : S) : N → Type 0 where
    created : Reach snapshot initial
    moved :
        {n m : N}
        → Reach snapshot n
        → (e : E) → next_state_name n e snapshot ≡ ok m
        → Reach snapshot m

  pub record IsDue (p : Pending N S) : Type 0 where
    pub name : N
    pub event : E
    pub reached : Reach p.snapshot name
    pub outcome : p.outcome ≡ next_state_name name event p.snapshot

  abbrev pub Entry : ℕ × (N × S) → Type 0
  Entry (r, (n, snapshot)) = Reach snapshot n

  pub record Inv (s : System N S) : Type 0 where
    pub entries : All Entry s.store.issued.entries
    pub pending : All IsDue s.pending

  find-Reach :
      (l : List (ℕ × (N × S))) (r : ℕ) (n : N) (snapshot : S)
      → All Entry l
      → find r l ≡ some (n, snapshot)
      → Reach snapshot n
  unfolding find
  find-Reach [] r n snapshot h e = absurd (ground arith)
  find-Reach ((j, (m, t)) ∷ l) r n snapshot h e = elim (Bool-cases (r == j)) [
    | inl same ↦ ground (arith, h.0)
    | inr other ↦ find-Reach l r n snapshot h.1 (rw other at e)
  ]

  module _ (wanted : N → Bool) (rejected : Error) where
    settle-Inv :
        (s : System N S) (i : ℕ) (p : Pending N S) (outcome : Result N)
        → Inv s
        → IsDue p
        → p.outcome ≡ outcome
        → Inv (record s {
          store = (settle_transition next_state_name rejected s.store p).0;
          pending = without i s.pending;
        })
    unfolding settle_transition
    settle-Inv s i p (err x) v d o =
        rw (o, settle_transition)
          (record { entries = v.entries; pending = All-without IsDue i s.pending v.pending })
    settle-Inv s i p (ok m) v d o =
        rw (o, settle_transition)
          (record {
            entries =
                unfold issue_state in (moved d.reached d.event (sym d.outcome ∙ o), v.entries);
            pending = All-without IsDue i s.pending v.pending;
          })

    begin-Inv :
        (s : System N S) (r : ℕ) (n : N) (snapshot : S) (e : E)
        → Inv s
        → snapshot_for_issued_state s.store r ≡ some (n, snapshot)
        → Inv (record s {
          store = record (s.store) { transitioning = r ∷ s.store.transitioning };
          pending =
              record { state = r; snapshot = snapshot; outcome = next_state_name n e snapshot }
              ∷ s.pending;
        })
    unfolding snapshot_for_issued_state
    begin-Inv s r n snapshot e v f = record {
      entries = v.entries;
      pending = (
        record {
          name = n;
          event = e;
          reached = find-Reach s.store.issued.entries r n snapshot v.entries (ground arith);
          outcome = refl;
        },
        v.pending,
      );
    }

    act-Inv :
        (s : System N S) (a : Action S E)
        → Inv s
        → Inv (act next_state_name initial wanted rejected s a)
    unfolding act begin_transition issue_state
    act-Inv s (creates snapshot) v = record { entries = (created, v.entries); pending = v.pending }
    act-Inv s (starts primitive e) v = v
    act-Inv s (starts (reference r) e) v =
        elim (Option-cases (snapshot_for_issued_state s.store r)) [
          | inl refused ↦ rw (refused, act, begin_transition) v
          | inr ((n, snapshot), found) ↦
              rw (found, act, begin_transition) (begin-Inv s r n snapshot e v found)
        ]
    act-Inv s (settles i) v = elim (Option-cases (nth i s.pending)) [
      | inl missing ↦ rw (missing, act) v
      | inr (p, found) ↦
          rw (found, act)
            (settle-Inv s i p p.outcome v (All-nth IsDue i s.pending p v.pending found) refl)
    ]
    act-Inv s (claims h) v = elim (claim_cases wanted rejected s.store h) [
      | inl refused ↦ rw (refused, act) v
      | inr (r, n, snapshot, claimed, _, _, _) ↦
          rw (claimed, act) (record { entries = v.entries; pending = v.pending })
    ]

    run_from-Inv :
        (s : System N S) (actions : List (Action S E))
        → Inv s
        → Inv (run next_state_name initial wanted rejected s actions)
    unfolding run
    run_from-Inv s [] v = v
    run_from-Inv s (a ∷ rest) v =
        run_from-Inv (act next_state_name initial wanted rejected s a) rest (act-Inv s a v)

    -- Whatever the calls and their interleaving, an issued state was reached from the initial one by
    -- transitions that its own snapshot allowed.
    pub run-Reach :
        (actions : List (Action S E)) (r : ℕ) (n : N) (snapshot : S)
        → get (run next_state_name initial wanted rejected new_system actions).store.issued r
          ≡ some (n, snapshot)
        → Reach snapshot n
    run-Reach actions r n snapshot e =
        find-Reach _ r n snapshot
          (run_from-Inv new_system actions (record { entries = tt; pending = tt })).entries e
