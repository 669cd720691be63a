-- ===== src/Common/Errors.antt =====
-- Thrown errors as values: the class of the error and its message.
use Prim.Native.String.{String}
use mathlib.Core.Path.{◌≡◌, refl, ap}
use mathlib.Core.Bool.{Bool, true, false}
use mathlib.Core.Option.{Option, none, some}
use mathlib.Core.Logic.{◌⊎◌, inl, inr}

pub data Error : Type 0 where
  type_error range_error : String → Error

pub data Result {ℓ} (T : Type ℓ) : Type ℓ where
  err : (thrown : Error) → Result T
  ok : (returned : T) → Result T

-- `if (test) throw error;`
abbrev pub throw_if : Bool → Error → Result (Unit {0})
throw_if false thrown = ok tt
throw_if true thrown = err thrown

-- What comes next, with what was returned; a throw skips it.
infixl 5 ◌>>=◌
abbrev pub ◌>>=◌ {ℓ κ} : {S : Type ℓ} → {T : Type κ} → Result S → (S → Result T) → Result T
err thrown >>= next = err thrown
ok returned >>= next = next returned

infixl 5 ◌>>◌
abbrev pub ◌>>◌ {ℓ} : {T : Type ℓ} → Result (Unit {0}) → Result T → Result T
first >> second = first >>= λ done. second

-- A chain that returns has returned at its first link.
pub >>=-eq-ok {ℓ κ} :
    {S : Type ℓ} {T : Type κ} (first : Result S) (next : S → Result T) {t : T}
    → (first >>= next) ≡ ok t
    → (s : S) × (first ≡ ok s) × (next s ≡ ok t)
>>=-eq-ok (err thrown) next h = cc
>>=-eq-ok (ok s) next h = (s, refl, h)

-- A value that was read before the chain begins.
pub elim-eq-ok {ℓ κ} :
    {S : Type ℓ} {T : Type κ} (o : Option S) (e : Error) (next : S → Result T) {t : T}
    → (elim o [ none ↦ err e | some s ↦ next s ]) ≡ ok t
    → (s : S) × (o ≡ some s) × (next s ≡ ok t)
elim-eq-ok none e next h = cc
elim-eq-ok (some s) e next h = (s, refl, h)

pub throw_if-eq-ok : (b : Bool) (e : Error) {u : Unit {0}} → throw_if b e ≡ ok u → b ≡ false
throw_if-eq-ok true e h = cc
throw_if-eq-ok false e h = refl

pub Result-cases {ℓ} :
    {A : Type ℓ} (m : Result A) → ((a : A) × (m ≡ ok a)) ⊎ ((e : Error) × (m ≡ err e))
Result-cases (ok a) = inl (a, refl)
Result-cases (err e) = inr (e, refl)

pub ok-injective {ℓ} : {A : Type ℓ} {a b : A} → ok a ≡ ok b → a ≡ b
ok-injective {a} h = ap (λ r. elim r [ ok x ↦ x | err e ↦ a ]) h

pub pair_ok {ℓ κ} :
    {A : Type ℓ} {B : Type κ} (a a' : A) (b b' : B)
    → ◌≡◌ {A = A × Result B} (a, ok b) (a', ok b')
    → (a ≡ a') × (b ≡ b')
pair_ok a a' b b' h = (ap (λ x. x.0) h, ok-injective (ap (λ x. x.1) h))
