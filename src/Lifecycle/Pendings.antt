-- ===== src/Lifecycle/Pendings.antt =====
-- References and transitions under way: lists without repetition, and what is live among the states.
use mathlib.Core.Path.{subst}
use tool.Common.{
  ℕ, zero, suc, ◌≤◌, ◌<◌, true, false, some, List, [], ◌∷◌, has, delete, if◌then◌else◌, ◌≡◌, refl,
  arith, ◌==◌, All,
}
use tool.Registry.{find, Below}
use tool.Lifecycle.State.{Pending}
use tool.Lifecycle.Run.{nth, without}

abbrev pub Distinct : List ℕ → Type 0
Distinct [] = Unit {0}
Distinct (r ∷ rs) = (has rs r ≡ false) × Distinct rs

pub delete_absent : (xs : List ℕ) (r : ℕ) → has xs r ≡ false → delete xs r ≡ xs
unfolding has delete
delete_absent [] r h = refl
delete_absent (x ∷ xs) r h = ground (arith, delete_absent xs r)

pub has_above : (xs : List ℕ) (n : ℕ) → All (λ r. r < n) xs → has xs n ≡ false
unfolding has
has_above [] n h = refl
has_above (x ∷ xs) n h = ground (arith, has_above xs n h.1)

pub All-lt-suc : (xs : List ℕ) (n : ℕ) → All (λ r. r < n) xs → All (λ r. r < suc n) xs
All-lt-suc [] n h = tt
All-lt-suc (x ∷ xs) n h = (omega arith, All-lt-suc xs n h.1)

module _ {A : Type 0} where
  -- The issued states that are not consumed.
  unfoldable pub live : List (ℕ × A) → List ℕ → ℕ
  live [] consumed = 0
  live ((r, a) ∷ l) consumed =
      let rest = live l consumed in if has consumed r then rest else suc rest

  pub live-fresh :
      (l : List (ℕ × A)) (consumed : List ℕ) (r : ℕ) (a : A)
      → has consumed r ≡ false
      → live ((r, a) ∷ l) consumed ≡ suc (live l consumed)
  unfolding live
  live-fresh l consumed r a h = ground arith

  pub live_above :
      (l : List (ℕ × A)) (consumed : List ℕ) (r n : ℕ)
      → Below n l
      → n ≤ r
      → live l (r ∷ consumed) ≡ live l consumed
  unfolding live has
  live_above [] consumed r n b h = refl
  live_above ((j, a) ∷ l) consumed r n b h = ground (arith, live_above l consumed r j b.1)

  -- Consuming a state that is issued and not consumed takes one away.
  pub live-consume :
      (l : List (ℕ × A)) (consumed : List ℕ) (r n : ℕ) (a : A)
      → Below n l
      → find r l ≡ some a
      → has consumed r ≡ false
      → live l consumed ≡ suc (live l (r ∷ consumed))
  unfolding live has find
  live-consume [] consumed r n a b f h = absurd (ground arith)
  live-consume ((j, x) ∷ l) consumed r n a b f h =
      ground (arith, live-consume l consumed r j a b.1, live_above l consumed r j b.1)

module _ {N S : Type 0} where
  abbrev pub refs : List (Pending N S) → List ℕ
  refs [] = []
  refs (p ∷ ps) = p.state ∷ refs ps

  pub has-nth :
      (i : ℕ) (ps : List (Pending N S)) (p : Pending N S)
      → nth i ps ≡ some p
      → has (refs ps) p.state ≡ true
  unfolding has
  has-nth i [] p e = absurd (ground arith)
  has-nth zero (q ∷ ps) p e = ground arith
  has-nth (suc i) (q ∷ ps) p e = ground (arith, has-nth i ps p)

  pub delete-refs :
      (i : ℕ) (ps : List (Pending N S)) (p : Pending N S)
      → Distinct (refs ps)
      → nth i ps ≡ some p
      → delete (refs ps) p.state ≡ refs (without i ps)
  unfolding delete
  delete-refs i [] p d e = absurd (ground arith)
  delete-refs zero (q ∷ ps) p d e = ground (arith, delete_absent (refs ps) p.state)
  delete-refs (suc i) (q ∷ ps) p d e = ground (arith, delete-refs i ps p d.1, has-nth i ps p)

  pub has-without :
      (i : ℕ) (ps : List (Pending N S)) (r : ℕ)
      → has (refs ps) r ≡ false
      → has (refs (without i ps)) r ≡ false
  unfolding has
  has-without i [] r h = refl
  has-without zero (q ∷ ps) r h = ground arith
  has-without (suc i) (q ∷ ps) r h = ground (arith, has-without i ps r)

  pub Distinct-without :
      (i : ℕ) (ps : List (Pending N S)) → Distinct (refs ps) → Distinct (refs (without i ps))
  Distinct-without i [] d = tt
  Distinct-without zero (q ∷ ps) d = d.1
  Distinct-without (suc i) (q ∷ ps) d = (has-without i ps q.state d.0, Distinct-without i ps d.1)

  pub All-nth :
      (P : Pending N S → Type 0) (i : ℕ) (ps : List (Pending N S)) (p : Pending N S)
      → All P ps
      → nth i ps ≡ some p
      → P p
  All-nth P i [] p h e = absurd (ground arith)
  All-nth P zero (q ∷ ps) p h e = subst P (ground arith) h.0
  All-nth P (suc i) (q ∷ ps) p h e = All-nth P i ps p h.1 e

  pub All-without :
      (P : Pending N S → Type 0) (i : ℕ) (ps : List (Pending N S)) → All P ps → All P (without i ps)
  All-without P i [] h = tt
  All-without P zero (q ∷ ps) h = h.1
  All-without P (suc i) (q ∷ ps) h = (h.0, All-without P i ps h.1)

  pub All-absent :
      (r : ℕ) (ps : List (Pending N S))
      → has (refs ps) r ≡ false
      → All (λ q. (r == q.state) ≡ false) ps
  unfolding has
  All-absent r [] h = tt
  All-absent r (q ∷ ps) h = (ground arith, All-absent r ps (ground arith))

  -- The other transitions that are under way are of other states.
  pub All-apart :
      (i : ℕ) (ps : List (Pending N S)) (p : Pending N S)
      → Distinct (refs ps)
      → nth i ps ≡ some p
      → All (λ q. (p.state == q.state) ≡ false) (without i ps)
  All-apart i [] p d e = tt
  All-apart zero (q ∷ ps) p d e = All-absent p.state ps (ground arith)
  All-apart (suc i) (q ∷ ps) p d e = (ground (arith, has-nth i ps p), All-apart i ps p d.1 e)

  pub All-map :
      (P Q : Pending N S → Type 0) (ps : List (Pending N S))
      → ((p : Pending N S) → P p → Q p)
      → All P ps
      → All Q ps
  All-map P Q [] f h = tt
  All-map P Q (p ∷ ps) f h = (f p h.0, All-map P Q ps f h.1)

  pub All-map₂ :
      (P Q R : Pending N S → Type 0) (ps : List (Pending N S))
      → ((p : Pending N S) → P p → Q p → R p)
      → All P ps
      → All Q ps
      → All R ps
  All-map₂ P Q R [] f h k = tt
  All-map₂ P Q R (p ∷ ps) f h k = (f p h.0 k.0, All-map₂ P Q R ps f h.1 k.1)
