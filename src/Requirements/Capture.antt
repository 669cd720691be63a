-- ===== src/Requirements/Capture.antt =====
-- The reading of the requirements in packages/core/src/requirements-offering-quote.ts
-- (`snapshotValue` and below), on a heap of objects.
--
-- The source counts the depth up from 1 and rejects a container below depth 16. Here the levels that
-- are left are counted down, so that the recursion is structural; a child is `none` where no level
-- is left.
use tool.Common.{
  ℕ, zero, suc, ◌+◌, Bool, true, false, not, ◌&&◌, Option, none, some, List, [], ◌∷◌, length, has,
  delete, ltb, ◌==◌, if◌then◌else◌, Result, ok, err, ◌>>=◌, ◌>>◌, throw_if,
}
use tool.Common.Text.{Text, ◌===◌}
use tool.Js.{
  Number, Value, Key, name, symbol_key, Descriptor, data_property, accessor_property, Object, Heap,
  is_object_prototype, includes,
}
use tool.Arrays.{length_key, safe_natural, is_array_prototype}
use tool.Value.Decimal.{decimal}
use tool.Requirements.Captured.{
  Captured, Properties, Items, end, property, nil, cons, sort_properties,
}
use tool.Requirements.Keys.{
  max_container_depth, max_object_properties, max_array_items, malformed, over_limit, Capture,
  or_malformed, consume_json_value, array_index_for_key, string_keys,
}

-- `safeOwnPropertyDescriptor`
unfoldable pub safe_own_property_descriptor : Object → Key → Result Descriptor
safe_own_property_descriptor o k = do or_malformed (← or_malformed (o.descriptor k))

-- The value of an enumerable data property.
abbrev enumerable_value : Descriptor → Result Value
enumerable_value (data_property true v) = ok v
enumerable_value (data_property false v) = err malformed
enumerable_value (accessor_property e) = err malformed

abbrev pub Child : Type 0
Child = Value → Capture Captured

-- The second loop over the keys of an object.
unfoldable pub capture_properties : Child → Object → List Text → List Text → Capture Properties
unfolding safe_own_property_descriptor includes
capture_properties child o seen [] state = ok (end, state)
capture_properties child o seen (k ∷ ks) state = do
  throw_if (includes seen k) malformed
  descriptor ← safe_own_property_descriptor o (name k)
  value ← enumerable_value descriptor
  (captured, state1) ← child value state
  (rest, state2) ← capture_properties child o (k ∷ seen) ks state1
  ok (property k captured rest, state2)

unfoldable pub snapshot_object_properties : Child → Object → Capture Properties
unfolding string_keys capture_properties
snapshot_object_properties child o state = do
  keys ← or_malformed o.own_keys
  throw_if (ltb max_object_properties (length keys)) over_limit
  ks ← string_keys 0 keys
  (properties, state1) ← capture_properties child o [] ks state
  ok (sort_properties properties, state1)

-- `snapshotContainer`: the reference is active while its members are read.
unfoldable pub snapshot_container : ℕ → Option Child → (Child → Capture Captured) → Capture Captured
unfolding has delete
snapshot_container r none body state = err over_limit
snapshot_container r (some child) body state = do
  throw_if (has state.active_containers r) malformed
  (captured, state1) ← body child (record state { active_containers = r ∷ state.active_containers })
  ok (captured, record state1 { active_containers = delete state1.active_containers r })

abbrev is_end : Properties → Bool
is_end end = true
is_end _ = false

unfoldable pub snapshot_plain_object : Option Child → Object → ℕ → Bool → Capture Captured
unfolding snapshot_container snapshot_object_properties
snapshot_plain_object child o r root state = do
  prototype ← or_malformed o.prototype
  throw_if (not (is_object_prototype prototype)) malformed
  snapshot_container r child
      (λ inner s. do
        (properties, s1) ← snapshot_object_properties inner o s
        throw_if (root && is_end properties) malformed
        ok (Captured.object properties, s1))
      state

-- What the first loop over the keys of an array finds.
pub record ArrayKeys : Type 0 where
  pub seen : List Text
  pub item_count : ℕ
  pub has_length : Bool

abbrev is_index : Text → Bool
is_index k = elim (array_index_for_key k) [ none ↦ false | some i ↦ true ]

unfoldable pub scan_array_keys : ArrayKeys → List Key → Result ArrayKeys
unfolding array_index_for_key includes ◌===◌
scan_array_keys a [] = ok a
scan_array_keys a (symbol_key s ∷ keys) = err malformed
scan_array_keys a (name k ∷ keys) = do
  throw_if (not (k === length_key) && not (is_index k)) malformed
  throw_if (includes a.seen k) malformed
  scan_array_keys
      (if k === length_key
        then record a { seen = k ∷ a.seen; has_length = true }
        else record a { seen = k ∷ a.seen; item_count = a.item_count + 1 })
      keys

-- The descriptor of `length`: a data property that is not enumerable.
abbrev length_value : Descriptor → Result ℕ
length_value (data_property false (Value.number n)) = or_malformed (safe_natural n)
length_value _ = err malformed

-- `capturedByIndex`, a later entry of an index before an earlier one, and `length`.
pub record ArrayItems : Type 0 where
  pub captured : List (ℕ × Captured)
  pub array_length : Option ℕ

unfoldable pub capture_array_items : Child → Object → ArrayItems → List Key → Capture ArrayItems
unfolding safe_own_property_descriptor array_index_for_key ◌===◌
capture_array_items child o a [] state = ok (a, state)
capture_array_items child o a (symbol_key s ∷ keys) state = err malformed
capture_array_items child o a (name k ∷ keys) state = do
  descriptor ← safe_own_property_descriptor o (name k)
  let as_length = do
    n ← length_value descriptor
    capture_array_items child o (record a { array_length = some n }) keys state
  let as_item = do
    index ← or_malformed (array_index_for_key k)
    value ← enumerable_value descriptor
    (captured, state1) ← child value state
    capture_array_items child o (record a { captured = (index, captured) ∷ a.captured }) keys state1
  if k === length_key then as_length else as_item

abbrev captured_at : ℕ → List (ℕ × Captured) → Option Captured
captured_at i [] = none
captured_at i ((j, v) ∷ l) = if i == j then some v else captured_at i l

-- The indices from `i` on, `n` of them: each must be among the keys.
unfoldable pub all_seen : List Text → ℕ → ℕ → Bool
unfolding includes decimal
all_seen seen i zero = true
all_seen seen i (suc n) = includes seen (decimal i) && all_seen seen (suc i) n

unfoldable pub gather : List (ℕ × Captured) → ℕ → ℕ → Result Items
gather captured i zero = ok nil
gather captured i (suc n) = do
  v ← or_malformed (captured_at i captured)
  rest ← gather captured (suc i) n
  ok (cons v rest)

unfoldable pub snapshot_array_items : Child → Object → Capture Items
unfolding scan_array_keys capture_array_items all_seen gather
snapshot_array_items child o state = do
  keys ← or_malformed o.own_keys
  throw_if (ltb (max_array_items + 1) (length keys)) over_limit
  a ← scan_array_keys (record { seen = []; item_count = 0; has_length = false }) keys
  throw_if (not a.has_length) malformed
  (items, state1) ←
      capture_array_items child o (record { captured = []; array_length = none }) keys state
  n ← or_malformed items.array_length
  throw_if (ltb max_array_items n) over_limit
  throw_if (not (a.item_count == n)) malformed
  throw_if (not (all_seen a.seen 0 n)) malformed
  values ← gather items.captured 0 n
  ok (values, state1)

unfoldable pub snapshot_array : Option Child → Object → ℕ → Capture Captured
unfolding snapshot_container snapshot_array_items
snapshot_array child o r state = do
  prototype ← or_malformed o.prototype
  throw_if (not (is_array_prototype prototype)) malformed
  snapshot_container r child
      (λ inner s. do (items, s1) ← snapshot_array_items inner o s; ok (Captured.array items, s1))
      state

-- `!Number.isFinite(value) || Object.is(value, -0)`
abbrev is_unsafe_number : Number → Bool
is_unsafe_number (Number.integral n) = false
is_unsafe_number (Number.fractional n) = false
is_unsafe_number _ = true

-- What `Array.isArray` says decides how an object is read; the root may be no array.
abbrev snapshot_by_kind : Bool → Option Child → Object → ℕ → Bool → Capture Captured
snapshot_by_kind true child o r true state = err malformed
snapshot_by_kind true child o r false state = snapshot_array child o r state
snapshot_by_kind false child o r root state = snapshot_plain_object child o r root state

abbrev snapshot_object_value : Heap → Option Child → ℕ → Bool → Capture Captured
snapshot_object_value h child r root state = do
  is_array ← or_malformed (h r).is_array
  snapshot_by_kind is_array child (h r) r root state

-- `snapshotValue` after the count.
unfoldable pub snapshot_counted : Heap → Option Child → Value → Bool → Capture Captured
unfolding snapshot_array snapshot_plain_object
snapshot_counted h child Value.null root state =
    throw_if root malformed >>= λ u. ok (Captured.null, state)
snapshot_counted h child (Value.boolean b) root state =
    throw_if root malformed >>= λ u. ok (Captured.boolean b, state)
snapshot_counted h child (Value.string s) root state =
    throw_if root malformed >>= λ u. ok (Captured.string s, state)
snapshot_counted h child (Value.number n) root state = do
  throw_if (is_unsafe_number n) malformed
  throw_if root malformed
  ok (Captured.number n, state)
snapshot_counted h child (Value.object r) root state = snapshot_object_value h child r root state
snapshot_counted h child _ root state = err malformed

-- `snapshotValue`, with `levels` levels of containers left.
unfoldable pub snapshot_value : Heap → ℕ → Value → Bool → Capture Captured
unfolding consume_json_value snapshot_counted
snapshot_value h zero value root state = do
  counted ← consume_json_value state
  snapshot_counted h none value root counted
snapshot_value h (suc levels) value root state = do
  counted ← consume_json_value state
  snapshot_counted h (some (λ v. snapshot_value h levels v false)) value root counted

-- The reading that `canonicalizeRequirements` begins with.
unfoldable pub capture_requirements : Heap → Value → Result Captured
unfolding snapshot_value
capture_requirements h input = do
  (captured, state) ←
      snapshot_value h max_container_depth input true
        (record { node_count = 0; active_containers = [] })
  ok captured
