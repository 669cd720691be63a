-- ===== src/Definition.antt =====
-- packages/core/src/offering-definition.ts: the definition of an offering.
pub mod Sound
pub mod Tests
use Prim.Native.String.{◌++◌}
use tool.Common.{
  ℕ, Bool, true, false, not, ◌&&◌, ◌||◌, Option, none, some, List, [], ◌∷◌, length, ltb, ◌==◌,
  if◌then◌else◌, Result, ok, err, Error, type_error, range_error, ◌>>=◌, ◌>>◌, throw_if, String,
}
use tool.Common.Int.{ℤ, pos, eqb_ℤ}
use tool.Common.Text.{Text, codes, ◌===◌, trim}
use tool.Js.{Number, integral, Value, string, number, Heap, snapshot_exact_record}
use tool.Timestamp.{canonical_utc_milliseconds, round_trip}
use tool.Economics.{OfferingTerms, OfferingTermsInput, create_offering_terms}

pub record OfferingDefinition : Type 0 where
  pub schema_version : ℕ
  pub terms : OfferingTerms
  pub maturity_at : Text
  pub qualifying_resource : Text

abbrev pub definition_fields : List Text
definition_fields =
    codes "schemaVersion" ∷ codes "terms" ∷ codes "maturityAt" ∷ codes "qualifyingResource" ∷ []

abbrev pub terms_fields : List Text
terms_fields =
    codes "version"
    ∷ codes "fundingTargetTinybars"
    ∷ codes "noteUnitPriceTinybars"
    ∷ codes "maximumNoteUnits"
    ∷ codes "minimumPurchaseUnits"
    ∷ codes "reserveShareBps"
    ∷ codes "issuerShareBps"
    ∷ codes "platformFeeBps"
    ∷ codes "payoutCapTinybars"
    ∷ []

-- A maximum length, and its decimal text in the message.
abbrev pub require_bounded_string : Value → ℕ → String → String → Result Text
require_bounded_string (string value) most printed field =
    if ltb most (length value)
    then err (range_error (field ++ " must not exceed " ++ printed ++ " characters"))
    else ok value
require_bounded_string _ most printed field =
    err (type_error (field ++ " must be a primitive string"))

unfoldable pub require_trimmed_nonblank_string : Value → ℕ → String → String → Result Text
unfolding ◌===◌ trim
require_trimmed_nonblank_string value most printed field = do
  text ← require_bounded_string value most printed field
  if length text == 0 || not (trim text === text)
      then err (range_error (field ++ " must be trimmed and nonblank"))
      else ok text

unfoldable pub parse_maturity_at : Value → Result Text
unfolding canonical_utc_milliseconds round_trip
parse_maturity_at (string value) =
    if canonical_utc_milliseconds value
    then (elim (round_trip value) [
      | ok time ↦ ok value
      | err e ↦ err (range_error "maturityAt must be a real canonical UTC instant")
    ])
    else err (range_error "maturityAt must use canonical UTC text")
parse_maturity_at _ = err (type_error "maturityAt must be a primitive string")

abbrev malformed_terms : Error
malformed_terms = type_error "terms must be an exact ordinary record"

unfoldable pub terms_of : List Value → Result OfferingTerms
unfolding require_trimmed_nonblank_string create_offering_terms
terms_of (version ∷ target ∷ price ∷ most ∷ least ∷ reserve ∷ issuer ∷ fee ∷ cap ∷ []) = do
  version_text ← require_trimmed_nonblank_string version 96 "96" "terms.version"
  target_text ← require_bounded_string target 96 "96" "terms.fundingTargetTinybars"
  price_text ← require_bounded_string price 96 "96" "terms.noteUnitPriceTinybars"
  most_text ← require_bounded_string most 96 "96" "terms.maximumNoteUnits"
  least_text ← require_bounded_string least 96 "96" "terms.minimumPurchaseUnits"
  reserve_text ← require_bounded_string reserve 96 "96" "terms.reserveShareBps"
  issuer_text ← require_bounded_string issuer 96 "96" "terms.issuerShareBps"
  fee_text ← require_bounded_string fee 96 "96" "terms.platformFeeBps"
  cap_text ← require_bounded_string cap 96 "96" "terms.payoutCapTinybars"
  create_offering_terms (record {
    version = version_text;
    funding_target_tinybars = target_text;
    note_unit_price_tinybars = price_text;
    maximum_note_units = most_text;
    minimum_purchase_units = least_text;
    reserve_share_bps = reserve_text;
    issuer_share_bps = issuer_text;
    platform_fee_bps = fee_text;
    payout_cap_tinybars = cap_text;
  })
terms_of _ = err malformed_terms

unfoldable pub parse_terms : Heap → Value → Result OfferingTerms
unfolding snapshot_exact_record terms_of
parse_terms h input = elim (snapshot_exact_record h input terms_fields) [
  | none ↦ err malformed_terms
  | some values ↦ terms_of values
]

abbrev pub is_number : ℕ → Value → Bool
is_number n (number (integral z)) = eqb_ℤ z (pos n)
is_number n _ = false

abbrev malformed_definition : Error
malformed_definition = type_error "offering definition must be an exact ordinary record"

unfoldable pub definition_of : Heap → List Value → Result OfferingDefinition
unfolding parse_terms parse_maturity_at require_trimmed_nonblank_string
definition_of h (schema_version ∷ terms_input ∷ maturity_at_input ∷ resource_input ∷ []) = do
  throw_if (not (is_number 1 schema_version)) (range_error "schemaVersion must equal 1")
  terms ← parse_terms h terms_input
  maturity_at ← parse_maturity_at maturity_at_input
  qualifying_resource ←
      require_trimmed_nonblank_string resource_input 256 "256" "qualifyingResource"
  ok (record {
    schema_version = 1;
    terms = terms;
    maturity_at = maturity_at;
    qualifying_resource = qualifying_resource;
  })
definition_of h _ = err malformed_definition

unfoldable pub parse_offering_definition : Heap → Value → Result OfferingDefinition
unfolding snapshot_exact_record definition_of
parse_offering_definition h input = elim (snapshot_exact_record h input definition_fields) [
  | none ↦ err malformed_definition
  | some values ↦ definition_of h values
]
