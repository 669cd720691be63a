-- ===== src/Arrays.antt =====
-- Arrays by reflection, as packages/core/src/entity-check.ts, packages/core/src/offering-create-payload.ts
-- and packages/core/src/agent-directory-record-candidate.ts read them.
pub mod Bounds
use tool.Common.{
  ℕ, zero, suc, ◌+◌, Bool, true, false, not, ◌&&◌, ◌||◌, Option, none, some, List, [], ◌∷◌, length,
  all, leb, ltb, ◌==◌, if◌then◌else◌,
}
use tool.Common.Int.{pos}
use tool.Common.Text.{Text, codes, ◌===◌}
use tool.Js.{
  Number, integral, neg_zero, Value, number, object, Prototype, array_prototype, Key, name,
  symbol_key, Descriptor, data_property, Object, Heap, max_safe_integer, field_value, has_key,
  named, string,
}
use tool.Value.Decimal.{decimal}

-- A nonnegative safe integer; -0 counts as 0.
abbrev pub safe_natural : Number → Option ℕ
safe_natural (integral (pos n)) = if leb n max_safe_integer then some n else none
safe_natural neg_zero = some 0
safe_natural _ = none

abbrev pub is_array_prototype : Prototype → Bool
is_array_prototype array_prototype = true
is_array_prototype _ = false

abbrev pub length_key : Text
length_key = codes "length"

-- What the own property `length` tells: a data property that is not enumerable. The code also asks
-- that it be not configurable, which the language promises of every array and of every proxy of one.
abbrev pub natural_value : Option (Option Descriptor) → Option ℕ
natural_value (some (some (data_property false (number n)))) = safe_natural n
natural_value _ = none

unfoldable pub array_length : Object → Option ℕ
array_length o = natural_value (o.descriptor (name length_key))

-- The enumerable data properties at the indices from `i` on, `n` of them.
unfoldable pub index_values : Object → ℕ → ℕ → Option (List Value)
unfolding field_value decimal
index_values o i zero = some []
index_values o i (suc n) = elim (field_value o (decimal i)) [
  | none ↦ none
  | some v ↦ elim (index_values o (suc i) n) [ none ↦ none | some vs ↦ some (v ∷ vs) ]
]

-- An ordinary array: what `Array.isArray` and the prototype tell.
unfoldable pub is_ordinary_array : Object → Bool
is_ordinary_array o = elim o.is_array [
  | none ↦ false
  | some array ↦ elim o.prototype [ none ↦ false | some p ↦ array && is_array_prototype p ]
]

-- `captureDenseArray` of packages/core/src/entity-check.ts.
unfoldable pub has_indices : List Key → ℕ → ℕ → Bool
unfolding has_key decimal
has_indices keys i zero = true
has_indices keys i (suc n) = has_key keys (decimal i) && has_indices keys (suc i) n

unfoldable pub dense_values : Object → ℕ → List Key → Option (List Value)
unfolding index_values has_key has_indices
dense_values o n keys =
    if length keys == n + 1 && has_key keys length_key && has_indices keys 0 n
    then index_values o 0 n
    else none

unfoldable pub dense_object : Object → Option (List Value)
unfolding dense_values array_length is_ordinary_array
dense_object o =
    if is_ordinary_array o
    then (elim (array_length o) [
      | none ↦ none
      | some n ↦ elim o.own_keys [ none ↦ none | some keys ↦ dense_values o n keys ]
    ])
    else none

unfoldable pub dense_array : Heap → Value → Option (List Value)
unfolding dense_object
dense_array h (object r) = dense_object (h r)
dense_array h _ = none

-- An array of `least` to `most` items with no key but its indices and `length`:
-- `captureNarrativeArray` of packages/core/src/offering-create-payload.ts and `captureArray` of
-- packages/core/src/agent-directory-record-candidate.ts.
unfoldable pub is_index_below : ℕ → ℕ → Text → Bool
unfolding decimal ◌===◌
is_index_below i zero k = false
is_index_below i (suc n) k = if decimal i === k then true else is_index_below (suc i) n k

unfoldable pub is_array_key : ℕ → Key → Bool
unfolding is_index_below
is_array_key n (name k) = if k === length_key then true else is_index_below 0 n k
is_array_key n (symbol_key s) = false

unfoldable pub bounded_values : ℕ → ℕ → Object → Option (List Value)
unfolding index_values array_length is_ordinary_array is_array_key
bounded_values least most o =
    if is_ordinary_array o
    then (elim (array_length o) [
      | none ↦ none
      | some n ↦ if ltb n least || ltb most n then none else (elim o.own_keys [
        | none ↦ none
        | some keys ↦
            if length keys == n + 1 && all (is_array_key n) keys then index_values o 0 n else none
      ])
    ])
    else none

unfoldable pub bounded_array : ℕ → ℕ → Heap → Value → Option (List Value)
unfolding bounded_values
bounded_array least most h (object r) = bounded_values least most (h r)
bounded_array least most h _ = none

-- An array of texts that the program builds.
abbrev item_at : List Text → ℕ → Text → Option Descriptor
item_at [] i k = none
item_at (t ∷ ts) i k =
    if decimal i === k then some (data_property true (string t)) else item_at ts (suc i) k

abbrev index_keys : List Text → ℕ → List Key
index_keys [] i = name length_key ∷ []
index_keys (t ∷ ts) i = name (decimal i) ∷ index_keys ts (suc i)

abbrev array_property : List Text → Text → Option Descriptor
array_property ts k =
    if k === length_key
    then some (data_property false (number (integral (pos (length ts)))))
    else item_at ts 0 k

unfoldable pub array_literal : List Text → Object
unfolding decimal ◌===◌
array_literal ts = record {
  prototype = some array_prototype;
  is_array = some true;
  own_keys = some (index_keys ts 0);
  descriptor = λ k. some (named (array_property ts) none k);
}
