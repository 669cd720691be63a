-- ===== src/Economics/Terms.antt =====
-- What the terms of an offering satisfy.
use tool.Common.{ℕ, ◌⊎◌, ◌≤◌, ◌<◌, ◌≡◌, refl, arith, length, inl, inr, ok, Option, none, some}
use tool.Common.Int.{ℤ, pos, ◌*ℤ◌, ◌≤ℤ◌, ◌<ℤ◌, pos_part}
use tool.Common.Text.{Text, trim}
use tool.Js.{string}
use tool.Value.{parse_canonical_integer, parse_tinybar, parse_basis_points, parse_note_units}
use tool.Value.Decimal.{decimal, decimal-parse}
use tool.Economics.{
  OfferingTerms, OfferingTermsInput, check_terms, create_offering_terms, canonical,
}

-- Positive amounts that fit one another, shares of 2000, 8000 and 0 basis points, and a payout cap
-- of exactly three halves of the funding target.
pub record IsOfferingTerms (t : OfferingTerms) : Type 0 where
  pub target_pos : pos 0 <ℤ t.funding_target_tinybars
  pub price_pos : pos 0 <ℤ t.note_unit_price_tinybars
  pub minimum_pos : pos 0 <ℤ t.minimum_purchase_units
  pub minimum_le : t.minimum_purchase_units ≤ℤ t.maximum_note_units
  pub funds_fit : t.maximum_note_units *ℤ t.note_unit_price_tinybars ≤ℤ t.funding_target_tinybars
  pub reserve_share : t.reserve_share_bps ≡ pos 2000
  pub issuer_share : t.issuer_share_bps ≡ pos 8000
  pub no_fee : t.platform_fee_bps ≡ pos 0
  pub cap : t.payout_cap_tinybars *ℤ pos 2 ≡ t.funding_target_tinybars *ℤ pos 3

canonical-eq-ok : (o : Option ℤ) {z : ℤ} → canonical o ≡ ok z → o ≡ some z
canonical-eq-ok none h = cc
canonical-eq-ok (some a) h = ground arith

module _ (v : Text) (target price most least reserve issuer fee cap : ℕ) where
  abbrev parsed : OfferingTerms
  parsed = record {
    version = v;
    funding_target_tinybars = pos target;
    note_unit_price_tinybars = pos price;
    maximum_note_units = pos most;
    minimum_purchase_units = pos least;
    reserve_share_bps = pos reserve;
    issuer_share_bps = pos issuer;
    platform_fee_bps = pos fee;
    payout_cap_tinybars = pos cap;
  }

  check_terms-IsOfferingTerms :
      (t : OfferingTerms) → check_terms parsed ≡ ok t → (t ≡ parsed) × IsOfferingTerms parsed
  unfolding check_terms
  check_terms-IsOfferingTerms t h = ground arith

-- What a parser of the input's numbers has done with a text: the number is the value read, if any.
abbrev number_of : Option ℤ → ℕ
number_of none = 0
number_of (some z) = pos_part z

abbrev Reading : Option ℤ → Text → Type 0
Reading o s = (o ≡ none) ⊎ ((o ≡ some (pos (number_of o))) × (s ≡ decimal (number_of o)))

Reading-of_parse :
    (o : Option ℤ) (s : Text)
    → ((z : ℤ) → o ≡ some z → parse_canonical_integer (string s) ≡ some z)
    → Reading o s
Reading-of_parse none s h = inl refl
Reading-of_parse (some z) s h = let (n, e, d) = decimal-parse s z (h z refl) in rw e (inr (refl, d))

parse_tinybar-Reading : (s : Text) → Reading (parse_tinybar (string s)) s
unfolding parse_tinybar
parse_tinybar-Reading s = Reading-of_parse _ s (λ z e. e)

parse_note_units-Reading : (s : Text) → Reading (parse_note_units (string s)) s
unfolding parse_note_units
parse_note_units-Reading s = Reading-of_parse _ s (λ z e. e)

parse_basis_points-Reading : (s : Text) → Reading (parse_basis_points (string s)) s
unfolding parse_basis_points
parse_basis_points-Reading s = Reading-of_parse _ s (λ z e. ground arith)

-- The texts of the input are the decimal texts of the numbers in the terms.
pub record IsExact (i : OfferingTermsInput) (t : OfferingTerms) : Type 0 where
  pub version : t.version ≡ trim i.version
  pub nonblank : 0 < length t.version
  pub short : length t.version ≤ 96
  pub target : i.funding_target_tinybars ≡ decimal (pos_part t.funding_target_tinybars)
  pub price : i.note_unit_price_tinybars ≡ decimal (pos_part t.note_unit_price_tinybars)
  pub most : i.maximum_note_units ≡ decimal (pos_part t.maximum_note_units)
  pub least : i.minimum_purchase_units ≡ decimal (pos_part t.minimum_purchase_units)
  pub cap : i.payout_cap_tinybars ≡ decimal (pos_part t.payout_cap_tinybars)

-- Terms that are created from an input are well formed, and each amount of theirs has the input's
-- text as its decimal text; the version is the trimmed one, of 1 to 96 characters.
pub create_offering_terms-IsOfferingTerms :
    (i : OfferingTermsInput) (t : OfferingTerms)
    → create_offering_terms i ≡ ok t
    → IsOfferingTerms t × IsExact i t
unfolding create_offering_terms
create_offering_terms-IsOfferingTerms i t h = ground (
  arith,
  parse_tinybar-Reading i.funding_target_tinybars,
  parse_tinybar-Reading i.note_unit_price_tinybars,
  parse_note_units-Reading i.maximum_note_units,
  parse_note_units-Reading i.minimum_purchase_units,
  parse_basis_points-Reading i.reserve_share_bps,
  parse_basis_points-Reading i.issuer_share_bps,
  parse_basis_points-Reading i.platform_fee_bps,
  parse_tinybar-Reading i.payout_cap_tinybars,
  check_terms-IsOfferingTerms (trim i.version)
      (number_of (parse_tinybar (string i.funding_target_tinybars)))
      (number_of (parse_tinybar (string i.note_unit_price_tinybars)))
      (number_of (parse_note_units (string i.maximum_note_units)))
      (number_of (parse_note_units (string i.minimum_purchase_units)))
      (number_of (parse_basis_points (string i.reserve_share_bps)))
      (number_of (parse_basis_points (string i.issuer_share_bps)))
      (number_of (parse_basis_points (string i.platform_fee_bps)))
      (number_of (parse_tinybar (string i.payout_cap_tinybars))) t,
)
