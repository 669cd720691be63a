-- ===== src/Registry.antt =====
-- The module-level `WeakMap`s and `WeakSet`s of the program: the objects that a module has issued,
-- by reference, with what it has recorded of each. A reference is a number that is never given twice.
use tool.Common.{
  ℕ, suc, ◌≤◌, ◌<◌, Option, none, some, List, [], ◌∷◌, ◌==◌, if◌then◌else◌, ◌≡◌, refl, arith,
}

pub record Registry {ℓ} (A : Type ℓ) : Type ℓ where
  pub next : ℕ
  pub entries : List (ℕ × A)

module _ {ℓ} {A : Type ℓ} where
  abbrev pub empty : Registry A
  empty = record { next = 0; entries = [] }

  -- A new object and the registry that holds it.
  abbrev pub issue : A → Registry A → Registry A × ℕ
  issue a r = (record { next = suc r.next; entries = (r.next, a) ∷ r.entries }, r.next)

  unfoldable pub find : ℕ → List (ℕ × A) → Option A
  find i [] = none
  find i ((j, a) ∷ l) = if i == j then some a else find i l

  abbrev pub get : Registry A → ℕ → Option A
  get r i = find i r.entries

  -- References fall along the entries and stay under the next one.
  abbrev pub Below : ℕ → List (ℕ × A) → Type 0
  Below n [] = Unit {0}
  Below n ((j, a) ∷ l) = (j < n) × Below j l

  Below-mono : (m n : ℕ) (l : List (ℕ × A)) → m ≤ n → Below m l → Below n l
  Below-mono m n [] h b = tt
  Below-mono m n ((j, a) ∷ l) h b = (omega arith, b.1)

  pub find_above : (i n : ℕ) (l : List (ℕ × A)) → Below n l → n ≤ i → find i l ≡ none
  unfolding find
  find_above i n [] b h = refl
  find_above i n ((j, a) ∷ l) b h = ground (arith, find_above i j l b.1)

  pub find-lt : (i n : ℕ) (l : List (ℕ × A)) (a : A) → Below n l → find i l ≡ some a → i < n
  unfolding find
  find-lt i n [] a b h = absurd (ground arith)
  find-lt i n ((j, x) ∷ l) a b h = ground (arith, find-lt i j l a b.1)
