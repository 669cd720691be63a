-- ===== src/Js.antt =====
-- The values of the host language that the program inspects: what `unknown` ranges over, the
-- objects behind references, and `snapshotExactRecord` of packages/core/src/offering-definition.ts
-- and packages/core/src/riskscan-native-quote-eligibility.ts.
--
-- An object is known by what reflection tells of it: its prototype, its own keys in order, and the
-- descriptor of each key. `none` stands for a trap of a proxy that throws.
use tool.Common.{
  ◌++◌, ◌||◌, suc, ℕ, Bool, true, false, not, Option, none, some, List, [], ◌∷◌, length, all, ◌==◌,
  if◌then◌else◌,
}
use tool.Common.Int.{ℤ}
use tool.Common.Text.{Text, ◌===◌}

-- A double: a finite one that is no integer is told apart from the others by a code.
pub data Number : Type 0 where
  nan neg_zero : Number
  infinite : Bool → Number
  integral : ℤ → Number
  fractional : ℕ → Number

pub data Value : Type 0 where
  undefined null : Value
  boolean : Bool → Value
  number : Number → Value
  bigint : ℤ → Value
  string : Text → Value
  symbol function object : ℕ → Value

pub data Prototype : Type 0 where
  object_prototype array_prototype other_prototype : Prototype

pub data Key : Type 0 where
  name : Text → Key
  symbol_key : ℕ → Key

pub data Descriptor : Type 0 where
  data_property : (enumerable : Bool) → Value → Descriptor
  accessor_property : (enumerable : Bool) → Descriptor

pub record Object : Type 0 where
  pub prototype : Option Prototype
  pub is_array : Option Bool
  pub own_keys : Option (List Key)
  pub descriptor : Key → Option (Option Descriptor)

abbrev pub Heap : Type 0
Heap = ℕ → Object

abbrev pub is_object_prototype : Prototype → Bool
is_object_prototype object_prototype = true
is_object_prototype _ = false

-- `fields.includes(key)`
unfoldable pub includes : List Text → Text → Bool
includes [] k = false
includes (f ∷ fs) k = if f === k then true else includes fs k

-- One round of the loop over the own keys.
unfoldable pub is_field : List Text → Key → Bool
unfolding includes ◌===◌
is_field fields (name k) = includes fields k
is_field fields (symbol_key s) = false

-- One round of the loop over the fields.
unfoldable pub field_value : Object → Text → Option Value
field_value o f = elim (o.descriptor (name f)) [
  | none ↦ none
  | some none ↦ none
  | some (some (accessor_property e)) ↦ none
  | some (some (data_property e v)) ↦ if e then some v else none
]

unfoldable pub field_values : Object → List Text → Option (List Value)
unfolding field_value
field_values o [] = some []
field_values o (f ∷ fs) = elim (field_value o f) [
  | none ↦ none
  | some v ↦ elim (field_values o fs) [ none ↦ none | some vs ↦ some (v ∷ vs) ]
]

unfoldable pub snapshot_keys : Object → List Text → List Key → Option (List Value)
unfolding field_values is_field
snapshot_keys o fields keys =
    if not (length keys == length fields)
    then none
    else if all (is_field fields) keys
    then field_values o fields
    else none

unfoldable pub snapshot_object : Object → List Text → Option (List Value)
unfolding snapshot_keys
snapshot_object o fields = elim o.prototype [
  | none ↦ none
  | some p ↦
      if is_object_prototype p
      then elim o.own_keys [ none ↦ none | some keys ↦ snapshot_keys o fields keys ]
      else none
]

unfoldable pub snapshot_exact_record : Heap → Value → List Text → Option (List Value)
unfolding snapshot_object
snapshot_exact_record h (object r) fields = snapshot_object (h r) fields
snapshot_exact_record h _ fields = none

-- The same with one more field that may be absent, as the readers of payloads and directory records
-- have it: its value comes last where it is there.
unfoldable pub is_field_or : List Text → Text → Key → Bool
unfolding is_field ◌===◌
is_field_or fields optional (name k) = if includes fields k then true else k === optional
is_field_or fields optional (symbol_key s) = false

unfoldable pub has_key : List Key → Text → Bool
unfolding ◌===◌
has_key [] f = false
has_key (name k ∷ ks) f = if k === f then true else has_key ks f
has_key (symbol_key s ∷ ks) f = has_key ks f

unfoldable pub optional_values : Object → List Text → Text → List Key → Option (List Value)
unfolding field_values has_key
optional_values o fields optional keys =
    if has_key keys optional
    then field_values o (fields ++ (optional ∷ []))
    else field_values o fields

unfoldable pub snapshot_optional_keys : Object → List Text → Text → List Key → Option (List Value)
unfolding optional_values is_field_or
snapshot_optional_keys o fields optional keys =
    if not (length keys == length fields || length keys == suc (length fields))
    then none
    else if all (is_field_or fields optional) keys
    then optional_values o fields optional keys
    else none

unfoldable pub snapshot_optional : Heap → Value → List Text → Text → Option (List Value)
unfolding snapshot_optional_keys
snapshot_optional h (object r) fields optional = elim (h r).prototype [
  | none ↦ none
  | some p ↦
      if is_object_prototype p
      then (elim (h r).own_keys [
        | none ↦ none
        | some keys ↦ snapshot_optional_keys (h r) fields optional keys
      ])
      else none
]
snapshot_optional h _ fields optional = none

-- `Number.MAX_SAFE_INTEGER`
abbrev pub max_safe_integer : ℕ
max_safe_integer = 9007199254740991

-- An object literal, with its keys in the order written, and an array literal are what the program
-- builds for `canonicalizeRequirements`.
unfoldable pub literal_value : List (Text × Value) → Text → Option Descriptor
unfolding ◌===◌
literal_value [] k = none
literal_value ((f, v) ∷ fs) k = if f === k then some (data_property true v) else literal_value fs k

abbrev pub named : {A : Type 0} → (Text → A) → A → Key → A
named f a (name k) = f k
named f a (symbol_key s) = a

abbrev pub keys_of : List (Text × Value) → List Key
keys_of [] = []
keys_of ((f, v) ∷ fs) = name f ∷ keys_of fs

unfoldable pub object_literal : List (Text × Value) → Object
unfolding literal_value
object_literal fs = record {
  prototype = some object_prototype;
  is_array = some false;
  own_keys = some (keys_of fs);
  descriptor = λ k. some (named (literal_value fs) none k);
}
