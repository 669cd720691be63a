-- ===== src/Definition/Sound.antt =====
-- What holds of an offering definition that packages/core/src/offering-definition.ts read.
use mathlib.Core.Path.{subst}
use tool.Common.{
  ℕ, ◌≤◌, Bool, true, false, not, List, [], ◌∷◌, length, String, Result, ok, err, Error,
  range_error, >>=-eq-ok, elim-eq-ok, throw_if, ok-injective, if◌then◌else◌, ◌≡◌, ◌≢◌, refl, arith,
}
use tool.Common.Text.{Text, ===_iff, trim}
use tool.Js.{Value, string, Heap, snapshot_exact_record}
use tool.Timestamp.{parse_text, canonical_utc_milliseconds, round_trip}
use tool.Economics.{OfferingTerms}
use tool.Economics.Terms.{IsOfferingTerms, create_offering_terms-IsOfferingTerms}
use tool.Definition.{
  OfferingDefinition, require_bounded_string, require_trimmed_nonblank_string, parse_maturity_at,
  terms_of, parse_terms, is_number, definition_of, parse_offering_definition, terms_fields,
  definition_fields,
}

pub record IsOfferingDefinition (d : OfferingDefinition) : Type 0 where
  pub schema : d.schema_version ≡ 1
  pub is_terms : IsOfferingTerms d.terms
  pub time : ℕ
  pub maturity : parse_text d.maturity_at ≡ ok time
  pub nonblank : d.qualifying_resource ≢ []
  pub trimmed : trim d.qualifying_resource ≡ d.qualifying_resource
  pub bounded : length d.qualifying_resource ≤ 256

is_trimmed :
    (v : Value) (s : Text) (most : ℕ) (printed field : String)
    → require_trimmed_nonblank_string v most printed field ≡ ok s
    → (s ≢ []) × (trim s ≡ s) × (length s ≤ most)
unfolding require_trimmed_nonblank_string
is_trimmed (string t) s most printed field h = ground (arith, ===_iff (trim t) t)
is_trimmed _ s most printed field h = absurd cc

readable :
    (c : Bool) (r : Result ℕ) (t s : Text) (e e' e'' : Error)
    → (if c then elim r [ ok time ↦ ok t | err thrown ↦ err e ] else err e') ≡ ok s
    → (t ≡ s) × (time : ℕ) × ((if c then r else err e'') ≡ ok time)
readable true (ok time) t s e e' e'' h = (ok-injective h, time, refl)
readable true (err thrown) t s e e' e'' h = absurd cc
readable false r t s e e' e'' h = absurd cc

is_readable :
    (v : Value) (s : Text) → parse_maturity_at v ≡ ok s → (time : ℕ) × (parse_text s ≡ ok time)
unfolding parse_maturity_at parse_text
is_readable (string t) s h =
    let (same, time, read) = readable (canonical_utc_milliseconds t) (round_trip t) t s _ _ _ h in
    (time, subst (λ u. parse_text u ≡ ok time) same read)
is_readable _ s h = absurd cc

terms_of-IsOfferingTerms :
    (vs : List Value) (t : OfferingTerms) → terms_of vs ≡ ok t → IsOfferingTerms t
unfolding terms_of
terms_of-IsOfferingTerms
      (version ∷ target ∷ price ∷ most ∷ least ∷ reserve ∷ issuer ∷ fee ∷ cap ∷ []) t h =
    let (version', _, h1) =
      >>=-eq-ok (require_trimmed_nonblank_string version 96 "96" "terms.version") _ h in
    let (target', _, h2) =
      >>=-eq-ok (require_bounded_string target 96 "96" "terms.fundingTargetTinybars") _ h1 in
    let (price', _, h3) =
      >>=-eq-ok (require_bounded_string price 96 "96" "terms.noteUnitPriceTinybars") _ h2 in
    let (most', _, h4) =
      >>=-eq-ok (require_bounded_string most 96 "96" "terms.maximumNoteUnits") _ h3 in
    let (least', _, h5) =
      >>=-eq-ok (require_bounded_string least 96 "96" "terms.minimumPurchaseUnits") _ h4 in
    let (reserve', _, h6) =
      >>=-eq-ok (require_bounded_string reserve 96 "96" "terms.reserveShareBps") _ h5 in
    let (issuer', _, h7) =
      >>=-eq-ok (require_bounded_string issuer 96 "96" "terms.issuerShareBps") _ h6 in
    let (fee', _, h8) =
      >>=-eq-ok (require_bounded_string fee 96 "96" "terms.platformFeeBps") _ h7 in
    let (cap', _, h9) =
      >>=-eq-ok (require_bounded_string cap 96 "96" "terms.payoutCapTinybars") _ h8 in
    (create_offering_terms-IsOfferingTerms
      (record {
        version = version';
        funding_target_tinybars = target';
        note_unit_price_tinybars = price';
        maximum_note_units = most';
        minimum_purchase_units = least';
        reserve_share_bps = reserve';
        issuer_share_bps = issuer';
        platform_fee_bps = fee';
        payout_cap_tinybars = cap';
      })
      t h9).0
terms_of-IsOfferingTerms _ t h = absurd cc

terms_read : (h : Heap) (v : Value) (t : OfferingTerms) → parse_terms h v ≡ ok t → IsOfferingTerms t
unfolding parse_terms
terms_read h v t e =
    let (values, _, read) = elim-eq-ok (snapshot_exact_record h v terms_fields) _ terms_of e in
    terms_of-IsOfferingTerms values t read

definition_of-IsOfferingDefinition :
    (h : Heap) (vs : List Value) (d : OfferingDefinition)
    → definition_of h vs ≡ ok d
    → IsOfferingDefinition d
unfolding definition_of
definition_of-IsOfferingDefinition h (version ∷ terms ∷ maturity ∷ resource ∷ []) d e =
    let (_, _, e1) =
      >>=-eq-ok (throw_if (not (is_number 1 version)) (range_error "schemaVersion must equal 1")) _
        e in
    let (terms', terms_ok, e2) = >>=-eq-ok (parse_terms h terms) _ e1 in
    let (maturity', maturity_ok, e3) = >>=-eq-ok (parse_maturity_at maturity) _ e2 in
    let (resource', resource_ok, e4) =
      >>=-eq-ok (require_trimmed_nonblank_string resource 256 "256" "qualifyingResource") _ e3 in
    let (time, read) = is_readable maturity maturity' maturity_ok in
    let (nonblank, trimmed, bounded) =
      is_trimmed resource resource' 256 "256" "qualifyingResource" resource_ok in
    subst IsOfferingDefinition (ok-injective e4) record {
      schema = refl;
      is_terms = terms_read h terms terms' terms_ok;
      time = time;
      maturity = read;
      nonblank = nonblank;
      trimmed = trimmed;
      bounded = bounded;
    }
definition_of-IsOfferingDefinition h _ d e = absurd cc

-- A definition that is read has terms that satisfy the rules of terms, a maturity that is a time, and a
-- resource that is not empty, is trimmed and has at most 256 units.
pub parse_offering_definition-IsOfferingDefinition :
    (h : Heap) (v : Value) (d : OfferingDefinition)
    → parse_offering_definition h v ≡ ok d
    → IsOfferingDefinition d
unfolding parse_offering_definition
parse_offering_definition-IsOfferingDefinition h v d e =
    let (values, _, read) =
      elim-eq-ok (snapshot_exact_record h v definition_fields) _ (definition_of h) e in
    definition_of-IsOfferingDefinition h values d read
