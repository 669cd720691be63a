-- ===== src/Lifecycle/Drive.antt =====
-- A state that is driven by a list of events: one transition after another, each of the successor of
-- the last, against the names alone.
use tool.Common.{
  ℕ, Option, some, List, [], ◌∷◌, Result, ok, err, Error, ◌>>=◌, ◌≡◌, refl, arith, pair_ok,
}
use tool.Registry.{get}
use tool.Lifecycle.{Store, reference, transition}
use tool.Lifecycle.Exclusion.{transition-IsTransition}

module _ {N S : Type 0} where
  abbrev pub continue :
      (Store N S → ℕ → Store N S × Result ℕ) → Store N S × Result ℕ → Store N S × Result ℕ
  continue k (s, err x) = (s, err x)
  continue k (s, ok r) = k s r

  equal_entries :
      (o : Option (N × S)) (n m : N) (a b : S)
      → o ≡ some (n, a)
      → o ≡ some (m, b)
      → (n ≡ m) × (a ≡ b)
  equal_entries o n m a b p q = ground arith

module _ {N S E : Type 0} (next_state_name : N → E → S → Result N) (rejected : Error) where
  -- The name after a list of events, each accepted.
  unfoldable pub follow : S → N → List E → Result N
  follow snapshot n [] = ok n
  follow snapshot n (e ∷ es) = next_state_name n e snapshot >>= λ m. follow snapshot m es

  unfoldable pub drive : Store N S → ℕ → List E → Store N S × Result ℕ
  drive s r [] = (s, ok r)
  drive s r (e ∷ es) =
      continue (λ t k. drive t k es) (transition next_state_name rejected s (reference r) e)

  pub record IsDriven (snapshot : S) (n : N) (es : List E) (s : Store N S) (r : ℕ) : Type 0 where
    pub name : N
    pub followed : follow snapshot n es ≡ ok name
    pub issued : get s.issued r ≡ some (name, snapshot)

  -- The first transition, and what is known of the rest.
  first-IsDriven :
      (s s' : Store N S) (r r' : ℕ) (e : E) (es : List E) (n : N) (snapshot : S)
      (x : Store N S × Result ℕ)
      → get s.issued r ≡ some (n, snapshot)
      → transition next_state_name rejected s (reference r) e ≡ x
      → continue (λ t k. drive t k es) x ≡ (s', ok r')
      → ((t : Store N S) (k : ℕ) (m : N)
          → get t.issued k ≡ some (m, snapshot)
          → drive t k es ≡ (s', ok r')
          → IsDriven snapshot m es s' r')
      → IsDriven snapshot n (e ∷ es) s' r'
  first-IsDriven s s' r r' e es n snapshot (t, err y) g q d ih = absurd (cc)
  first-IsDriven s s' r r' e es n snapshot (t, ok k) g q d ih =
      let i = transition-IsTransition next_state_name rejected s t r e k q in
      let (same_name, same) = equal_entries _ i.name n i.snapshot snapshot i.was_issued g in
      let rest = ih t k i.next_name (rw (← same) i.issued) d in
      let step : next_state_name n e snapshot ≡ ok i.next_name = cc (i.allowed, same_name, same) in
      record {
        name = rest.name;
        followed = unfold follow in rw step rest.followed;
        issued = rest.issued;
      }

  -- A state that is driven ends under the name that the events lead to, with its snapshot.
  pub drive-IsDriven :
      (s s' : Store N S) (r r' : ℕ) (es : List E) (n : N) (snapshot : S)
      → get s.issued r ≡ some (n, snapshot)
      → drive s r es ≡ (s', ok r')
      → IsDriven snapshot n es s' r'
  unfolding drive follow
  drive-IsDriven s s' r r' [] n snapshot g d =
      let (same, last) = pair_ok s s' r r' d in
      record { name = n; followed = refl; issued = rw (← same, ← last) g }
  drive-IsDriven s s' r r' (e ∷ es) n snapshot g d =
      first-IsDriven s s' r r' e es n snapshot _ g refl d
        (λ t k m. drive-IsDriven t s' k r' es m snapshot)
