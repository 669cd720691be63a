-- ===== src/Arrays/Bounds.antt =====
-- The number of the values that an array was read as.
use tool.Common.{
  ℕ, zero, suc, ◌≤◌, some, List, ◌∷◌, length, chain-eq-some, Option-cases, inl, inr, ◌≡◌, sym, ap,
  ◌∙◌, arith,
}
use tool.Js.{Value, object, Object, Heap, field_value}
use tool.Value.Decimal.{decimal}
use tool.Arrays.{array_length, index_values, bounded_values, bounded_array}

index_values-length :
    (o : Object) (i n : ℕ) (vs : List Value) → index_values o i n ≡ some vs → length vs ≡ n
unfolding index_values
index_values-length o i zero vs h = ground arith
index_values-length o i (suc n) vs h =
    let (v, _, h1) = chain-eq-some (field_value o (decimal i)) _ h in
    let (rest, read, h2) = chain-eq-some (index_values o (suc i) n) _ h1 in
    let size = index_values-length o (suc i) n rest read in
    let same : v ∷ rest ≡ vs = cc in ap length (sym same) ∙ ap suc size

bounded_values-length :
    (least most : ℕ) (o : Object) (vs : List Value)
    → bounded_values least most o ≡ some vs
    → (least ≤ length vs) × (length vs ≤ most)
unfolding bounded_values
bounded_values-length least most o vs h = elim (Option-cases (array_length o)) [
  | inl e ↦ ground arith
  | inr (n, e) ↦ ground (arith, index_values-length o 0 n vs)
]

pub bounded_array-length :
    (least most : ℕ) (h : Heap) (v : Value) (vs : List Value)
    → bounded_array least most h v ≡ some vs
    → (least ≤ length vs) × (length vs ≤ most)
unfolding bounded_array
bounded_array-length least most h (object r) vs e = bounded_values-length least most (h r) vs e
bounded_array-length least most h _ vs e = absurd cc
