-- ===== src/Entity/Read.antt =====
-- The reading of the input in packages/core/src/entity-check.ts.
use tool.Common.{
  ℕ, ◌+◌, Bool, true, not, ◌&&◌, ◌||◌, Option, none, some, List, [], ◌∷◌, ◌++◌, length, all, leb,
  ltb, ◌==◌, if◌then◌else◌, Result, ok, err, ◌>>=◌,
}
use tool.Common.Text.{Text, codes, ◌===◌, trim}
use tool.Js.{
  Value, string, number, object, Object, Heap, Key, is_field, is_object_prototype, has_key,
  field_values,
}
use tool.Arrays.{dense_array, safe_natural}
use tool.Patterns.{digits_pattern, parse_string}
use tool.Eligibility.{is_text}
use tool.Entity.Dates.{rejected}

pub record EntityCheckRequest : Type 0 where
  pub request_ref : Text
  pub jurisdiction : Text
  pub query : Text
  pub registration_number : Option Text

pub data AdministrativeStatus : Type 0 where
  active ceased : AdministrativeStatus

pub record EntityRegistryCandidate : Type 0 where
  pub siren : Text
  pub legal_name : Text
  pub administrative_status : AdministrativeStatus
  pub incorporation_date : Text
  pub registered_address : Text
  pub officer_count : ℕ
  pub registry_updated_at : Text

pub record EntitySanctionsEntry : Type 0 where
  pub entry_id : Text
  pub name : Text
  pub entry_type : Text
  pub programs : List Text

-- The field `source` is a constant, here and in the source of the registry.
pub record EntitySanctionsDataset : Type 0 where
  pub last_modified : Text
  pub content_hash : Text
  pub entries : List EntitySanctionsEntry

pub record EntityCheckAssessmentInput : Type 0 where
  pub registry_candidates : List EntityRegistryCandidate
  pub read_at : Text
  pub sanctions_dataset : EntitySanctionsDataset

abbrev pub or_rejected {ℓ} : {A : Type ℓ} → Option A → Result A
or_rejected none = err rejected
or_rejected (some a) = ok a

-- The keys: as many as the required and at most the optional fields, each one of these, and each
-- required one among them.
unfoldable pub are_keys : List Text → List Text → List Key → Bool
unfolding is_field has_key
are_keys required optional keys =
    leb (length required) (length keys)
    && leb (length keys) (length required + length optional)
    && all (is_field (required ++ optional)) keys
    && all (has_key keys) required

abbrev pub present : List Key → List Text → List Text
present keys [] = []
present keys (f ∷ fs) = if has_key keys f then f ∷ present keys fs else present keys fs

-- The values of the required fields and of the optional ones that are there.
unfoldable pub capture_object : Object → List Text → List Text → Option (List Value)
unfolding are_keys field_values has_key
capture_object o required optional = elim o.prototype [
  | none ↦ none
  | some p ↦
      if is_object_prototype p
      then (elim o.own_keys [
        | none ↦ none
        | some keys ↦
            if are_keys required optional keys
            then field_values o (required ++ present keys optional)
            else none
      ])
      else none
]

unfoldable pub capture_record : Heap → Value → List Text → List Text → Result (List Value)
unfolding capture_object
capture_record h (object r) required optional = or_rejected (capture_object (h r) required optional)
capture_record h _ required optional = err rejected

unfoldable pub capture_dense_array : Heap → Value → Result (List Value)
unfolding dense_array
capture_dense_array h v = or_rejected (dense_array h v)

abbrev pub any_text : Text → Bool
any_text s = true

unfoldable pub required_string : Value → Result Text
unfolding parse_string
required_string = parse_string rejected any_text

abbrev pub is_nonblank : Text → Bool
is_nonblank s = not (length (trim s) == 0)

unfoldable pub required_nonblank_string : Value → Result Text
unfolding parse_string trim
required_nonblank_string = parse_string rejected is_nonblank

unfoldable pub required_trimmed_nonblank_string : Value → ℕ → Result Text
unfolding trim
required_trimmed_nonblank_string (string s) most =
    if length (trim s) == 0 || ltb most (length (trim s)) then err rejected else ok (trim s)
required_trimmed_nonblank_string _ most = err rejected

unfoldable pub parse_siren : Value → Result Text
unfolding parse_string digits_pattern
parse_siren = parse_string rejected (digits_pattern 9)

unfoldable pub parse_status : Value → Result AdministrativeStatus
unfolding ◌===◌
parse_status v =
    if is_text (codes "active") v
    then ok active
    else if is_text (codes "ceased") v
    then ok ceased
    else err rejected

unfoldable pub parse_count : Value → Result ℕ
parse_count (number n) = or_rejected (safe_natural n)
parse_count _ = err rejected

-- `map` with a function that may throw.
unfoldable pub map_all : {A : Type 0} → (Value → Result A) → List Value → Result (List A)
map_all f [] = ok []
map_all f (v ∷ vs) = do a ← f v; rest ← map_all f vs; ok (a ∷ rest)
