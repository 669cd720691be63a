-- ===== src/Requirements/Keys.antt =====
-- The limits of packages/core/src/requirements-offering-quote.ts and what it does with the keys of an
-- object: their bytes (`preflightCanonicalKey`) and the indices of an array (`arrayIndexForKey`).
use tool.Common.{
  ℕ, ◌+◌, ◌-◌, ◌*◌, Bool, ◌&&◌, ◌||◌, Option, none, some, List, [], ◌∷◌, length, ltb, leb, ◌==◌,
  if◌then◌else◌, Result, ok, err, Error, type_error, range_error, ◌>>=◌, ◌>>◌, throw_if,
}
use tool.Common.Text.{Text}
use tool.Js.{Key, name, symbol_key}

abbrev pub max_container_depth : ℕ
max_container_depth = 16

abbrev pub max_json_values : ℕ
max_json_values = 256

abbrev pub max_object_properties : ℕ
max_object_properties = 128

abbrev pub max_array_items : ℕ
max_array_items = 128

abbrev pub max_canonical_bytes : ℕ
max_canonical_bytes = 32768

abbrev pub malformed : Error
malformed = type_error "requirements must be a safe JSON object"

abbrev pub over_limit : Error
over_limit = range_error "requirements exceed canonicalization limits"

pub record CaptureState : Type 0 where
  pub node_count : ℕ
  pub active_containers : List ℕ

-- What is read, and the state after it.
abbrev pub Capture : Type 0 → Type 0
Capture A = CaptureState → Result (A × CaptureState)

-- `?? rejectMalformedRequirements()`
abbrev pub or_malformed {ℓ} : {A : Type ℓ} → Option A → Result A
or_malformed none = err malformed
or_malformed (some a) = ok a

unfoldable pub consume_json_value : CaptureState → Result CaptureState
consume_json_value state =
    let count = state.node_count + 1 in
    if ltb max_json_values count then err over_limit else ok (record state { node_count = count })

abbrev pub is_high_surrogate : ℕ → Bool
is_high_surrogate c = leb 0xd800 c && leb c 0xdbff

abbrev pub is_low_surrogate : ℕ → Bool
is_low_surrogate c = leb 0xdc00 c && leb c 0xdfff

-- The bytes that a code unit outside a surrogate pair is emitted as.
unfoldable pub unit_byte_length : ℕ → ℕ
unit_byte_length c =
    if c == 0x22 || c == 0x5c || c == 0x08 || c == 0x0c || c == 0x0a || c == 0x0d || c == 0x09
    then 2
    else if ltb c 0x20
    then 6
    else if is_high_surrogate c || is_low_surrogate c
    then 6
    else if leb c 0x7f
    then 1
    else if leb c 0x7ff
    then 2
    else 3

-- `total` stays within the limit, so the test is written without the difference.
abbrev add_bounded : ℕ → ℕ → Result ℕ
add_bounded total n = if ltb max_canonical_bytes (total + n) then err over_limit else ok (total + n)

unfoldable pub preflight_from : ℕ → Text → Result ℕ
unfolding unit_byte_length
preflight_from total [] = ok total
preflight_from total (c ∷ []) = add_bounded total (unit_byte_length c)
preflight_from total (c ∷ d ∷ s) =
    let pair = add_bounded total 4 >>= λ n. preflight_from n s in
    let single = add_bounded total (unit_byte_length c) >>= λ n. preflight_from n (d ∷ s) in
    if is_high_surrogate c && is_low_surrogate d then pair else single

unfoldable pub preflight_canonical_key : Text → Result ℕ
unfolding preflight_from
preflight_canonical_key key =
    if ltb max_canonical_bytes (length key) then err over_limit else preflight_from 2 key

unfoldable pub index_from : ℕ → Text → Option ℕ
index_from index [] = some index
index_from index (c ∷ s) =
    let next = index * 10 + (c - b'0') in
    let rest = index_from next s in
    if ltb c b'0' || ltb b'9' c then none else if leb max_array_items next then none else rest

unfoldable pub array_index_for_key : Text → Option ℕ
unfolding index_from
array_index_for_key [] = none
array_index_for_key (c ∷ s) =
    if c == b'0' && length s == 0
    then some 0
    else if ltb 3 (length (c ∷ s)) || c == b'0'
    then none
    else index_from 0 (c ∷ s)

-- The first loop over the keys of an object: only strings, whose emitted bytes fit together.
unfoldable pub string_keys : ℕ → List Key → Result (List Text)
unfolding preflight_canonical_key
string_keys total [] = ok []
string_keys total (symbol_key s ∷ keys) = err malformed
string_keys total (name k ∷ keys) = do
  n ← preflight_canonical_key k
  throw_if (ltb max_canonical_bytes (total + n)) over_limit
  ks ← string_keys (total + n) keys
  ok (k ∷ ks)
