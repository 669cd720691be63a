-- ===== src/Clearing/Retries.antt =====
-- A split is submitted again only after the one before it is proven not to have been executed. See
-- packages/core/src/clearing-split-lifecycle.ts.
use tool.Common.{
  ℕ, suc, ◌+◌, List, [], ◌∷◌, Result, ok, ◌>>=◌, ◌≡◌, refl, arith, inl, inr, some, Result-cases,
}
use tool.Js.{Value, Heap}
use tool.Registry.{get}
use tool.Lifecycle.Drive.{follow, drive, drive-IsDriven}
use tool.PaidTask.{PaidTaskSnapshot}
use tool.Clearing.{
  StateName, split_required, EventType, submit, non_execution_proven, next_state_name, event_type,
  next_by_event, Splits, invalid_transition,
}

abbrev pub submits : List EventType → ℕ
submits [] = 0
submits (submit ∷ es) = suc (submits es)
submits (_ ∷ es) = submits es

abbrev pub proofs : List EventType → ℕ
proofs [] = 0
proofs (non_execution_proven ∷ es) = suc (proofs es)
proofs (_ ∷ es) = proofs es

-- A split that may have been executed.
abbrev pub out : StateName → ℕ
out split_required = 0
out _ = 1

-- The types of a list of events, if each can be read.
pub types_of : Heap → List Value → Result (List EventType)
types_of h [] = ok []
types_of h (e ∷ es) = event_type h e >>= λ t. types_of h es >>= λ ts. ok (t ∷ ts)

next_by_event-type :
    (h : Heap) (n : StateName) (e : Value) (snapshot : PaidTaskSnapshot) (m : StateName)
    → next_by_event h n e snapshot ≡ ok m
    → (t : EventType) × (event_type h e ≡ ok t) × (next_state_name n t ≡ ok m)
unfolding next_by_event
next_by_event-type h n e snapshot m q = elim (Result-cases (event_type h e)) [
  | inl (t, p) ↦ (t, p, rw p at q)
  | inr (x, p) ↦ absurd (ground arith)
]

-- One event: a submission goes out, a proof of non-execution brings it back.
step-out :
    (n m : StateName) (t : EventType) (ts : List EventType)
    → next_state_name n t ≡ ok m
    → out n + submits (t ∷ ts) + proofs ts ≡ out m + proofs (t ∷ ts) + submits ts
unfolding next_state_name
step-out n m t ts h = ground arith

follow-submits :
    (h : Heap) (snapshot : PaidTaskSnapshot) (n m : StateName) (es : List Value)
    → follow (next_by_event h) invalid_transition snapshot n es ≡ ok m
    → (ts : List EventType) × (types_of h es ≡ ok ts) × (out n + submits ts ≡ out m + proofs ts)
unfolding follow types_of
follow-submits h snapshot n m [] q = ([], refl, ground arith)
follow-submits h snapshot n m (e ∷ es) q = elim (Result-cases (next_by_event h n e snapshot)) [
  | inr (x, p) ↦ absurd (ground arith)
  | inl (k, p) ↦
      let (t, read, step) = next_by_event-type h n e snapshot k p in
      let (ts, rest, sum) = follow-submits h snapshot k m es (rw p at q) in
      (t ∷ ts, rw (read, rest), omega (arith, sum, step-out n k t ts step))
]

-- Over any sequence of transitions of a new split that succeeds, the submissions are the proofs of
-- non-execution, and one more unless a submission is still required: so a confirmed split stands for
-- exactly one submission that was not proven void. The snapshot is that of the claimed result.
pub drive-submits_once :
    (h : Heap) (splits splits' : Splits) (r s : ℕ) (es : List Value) (snapshot : PaidTaskSnapshot)
    → get splits.issued r ≡ some (split_required, snapshot)
    → drive (next_by_event h) invalid_transition splits r es ≡ (splits', ok s)
    → (m : StateName) × (ts : List EventType) × (types_of h es ≡ ok ts)
      × (get splits'.issued s ≡ some (m, snapshot))
      × (submits ts ≡ out m + proofs ts)
drive-submits_once h splits splits' r s es snapshot g d =
    let p =
      drive-IsDriven (next_by_event h) invalid_transition splits splits' r s es split_required
        snapshot g d in
    let (ts, read, sum) = follow-submits h snapshot split_required p.name es p.followed in
    (p.name, ts, read, p.issued, omega (arith, sum))
