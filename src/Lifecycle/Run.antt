-- ===== src/Lifecycle/Run.antt =====
-- Interleavings of the calls of a lifecycle. An action is a creation, the start of a transition, the
-- end of one that has been started, or a claim; a transition without a break is its start and its
-- end. A schedule is any list of actions. The counts are those of the calls that succeeded.
use tool.Common.{
  ℕ, zero, suc, Bool, true, Option, none, some, List, [], ◌∷◌, Result, ok, err, Error, ◌≡◌, refl,
  arith, Bool-cases, Option-cases, inl, inr, ◌⊎◌, ap, sym, ◌∙◌, ok-injective,
}
use mathlib.Core.Path.{subst}
use tool.Registry.{get}
use tool.Lifecycle.{
  Handle, primitive, reference, Store, Pending, new_store, issue_state, claim, begin_transition,
  settle_transition, snapshot_for_issued_state,
}

pub data Action (S E : Type 0) : Type 0 where
  creates : S → Action S E
  starts : Handle → E → Action S E
  settles : ℕ → Action S E
  claims : Handle → Action S E

pub record System (N S : Type 0) : Type 0 where
  pub store : Store N S
  pub pending : List (Pending N S)
  pub created : ℕ
  pub claimed : ℕ

module _ {N S : Type 0} where
  abbrev pub new_system : System N S
  new_system = record { store = new_store; pending = []; created = 0; claimed = 0 }

  abbrev pub nth : ℕ → List (Pending N S) → Option (Pending N S)
  nth i [] = none
  nth zero (p ∷ ps) = some p
  nth (suc i) (p ∷ ps) = nth i ps

  abbrev pub without : ℕ → List (Pending N S) → List (Pending N S)
  without i [] = []
  without zero (p ∷ ps) = ps
  without (suc i) (p ∷ ps) = p ∷ without i ps

  abbrev pub after_claim : System N S → Store N S × Result S → System N S
  after_claim s (store, ok snapshot) = record s { store = store; claimed = suc s.claimed }
  after_claim s (store, err e) = record s { store = store }

module _ {N S E : Type 0} (next_state_name : N → E → S → Result N) (initial : N) (wanted : N → Bool)
    (rejected : Error) where
  unfoldable pub act : System N S → Action S E → System N S
  act s (creates snapshot) = record s {
    store = (issue_state initial snapshot s.store).0;
    created = suc s.created;
  }
  act s (starts state event) =
      elim (begin_transition next_state_name rejected s.store state event) [
        | err e ↦ s
        | ok (store, p) ↦ record s { store = store; pending = p ∷ s.pending }
      ]
  act s (settles i) = elim (nth i s.pending) [
    | none ↦ s
    | some p ↦ record s {
      store = (settle_transition next_state_name rejected s.store p).0;
      pending = without i s.pending;
    }
  ]
  act s (claims state) = after_claim s (claim wanted rejected s.store state)

  unfoldable pub run : System N S → List (Action S E) → System N S
  unfolding act
  run s [] = s
  run s (a ∷ rest) = run (act s a) rest

-- A claim is refused, or consumes a state that it finds.
pub claim_cases :
    {N S : Type 0} (wanted : N → Bool) (rejected : Error) (s : Store N S) (h : Handle)
    → (claim wanted rejected s h ≡ (s, err rejected))
      ⊎ ((r : ℕ) × (n : N) × (snapshot : S) × (claim wanted rejected s h
            ≡ (record s { consumed = r ∷ s.consumed }, ok snapshot))
          × (snapshot_for_issued_state s r ≡ some (n, snapshot))
          × (wanted n ≡ true)
          × (h ≡ reference r))
unfolding claim
claim_cases wanted rejected s primitive = inl refl
claim_cases wanted rejected s (reference r) = elim (Option-cases (snapshot_for_issued_state s r)) [
  | inl refused ↦ inl (rw (refused, claim))
  | inr ((n, snapshot), found) ↦ elim (Bool-cases (wanted n)) [
    | inl accepted ↦ inr (r, n, snapshot, rw (found, claim) (rw accepted), found, accepted, refl)
    | inr other ↦ inl (rw (found, claim) (rw other))
  ]
]

pub snapshot_for_issued_state-get :
    {N S : Type 0} (s : Store N S) (r : ℕ) (x : N × S)
    → snapshot_for_issued_state s r ≡ some x
    → get s.issued r ≡ some x
unfolding snapshot_for_issued_state
snapshot_for_issued_state-get s r x e = ground arith

-- A claim that succeeds hands out the snapshot of an issued state of the wanted kind.
pub claim-eq-ok :
    {N S : Type 0} (wanted : N → Bool) (rejected : Error) (s s' : Store N S) (h : Handle) (t : S)
    → claim wanted rejected s h ≡ (s', ok t)
    → (r : ℕ) × (n : N) × (get s.issued r ≡ some (n, t))
      × (wanted n ≡ true)
      × (h ≡ reference r)
      × (s' ≡ record s { consumed = r ∷ s.consumed })
claim-eq-ok wanted rejected s s' h t e = elim (claim_cases wanted rejected s h) [
  | inl refused ↦ absurd (cc refused)
  | inr (r, n, snapshot, claimed, found, accepted, same) ↦
      let p = sym claimed ∙ e in
      (
        r,
        n,
        subst (λ x. get s.issued r ≡ some (n, x)) (ok-injective (ap (λ x. x.1) p))
            (snapshot_for_issued_state-get s r (n, snapshot) found),
        accepted,
        same,
        sym (ap (λ x. x.0) p),
      )
]
