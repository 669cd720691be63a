-- ===== src/Economics.antt =====
-- packages/core/src/offering-economics.ts: the terms of an offering, the allocation of note units
-- and the clearing split. A `bigint` is an integer of Common/Int.
pub mod Tests
pub mod Terms
pub mod Allocation
pub mod Split
use tool.Common.{
  ℕ, Bool, true, false, not, ◌&&◌, ◌||◌, Option, none, some, List, [], ◌∷◌, length, ltb, ◌==◌,
  if◌then◌else◌, Result, ok, err, Error, type_error, range_error, ◌>>=◌, ◌>>◌, throw_if, String,
}
use tool.Common.Int.{ℤ, pos, ◌+ℤ◌, ◌-ℤ◌, ◌*ℤ◌, ◌/ℤ◌, divides, ltb_ℤ, leb_ℤ, eqb_ℤ}
use tool.Common.Text.{Text, ◌===◌, trim}
use tool.Js.{string}
use tool.Value.{parse_tinybar, parse_basis_points, parse_note_units}

pub record OfferingTermsInput : Type 0 where
  pub version : Text
  pub funding_target_tinybars : Text
  pub note_unit_price_tinybars : Text
  pub maximum_note_units : Text
  pub minimum_purchase_units : Text
  pub reserve_share_bps : Text
  pub issuer_share_bps : Text
  pub platform_fee_bps : Text
  pub payout_cap_tinybars : Text

pub record OfferingTerms : Type 0 where
  pub version : Text
  pub funding_target_tinybars : ℤ
  pub note_unit_price_tinybars : ℤ
  pub maximum_note_units : ℤ
  pub minimum_purchase_units : ℤ
  pub reserve_share_bps : ℤ
  pub issuer_share_bps : ℤ
  pub platform_fee_bps : ℤ
  pub payout_cap_tinybars : ℤ

pub record OfferingAllocationInput : Type 0 where
  pub expected_terms_version : Text
  pub requested_units : ℤ
  pub confirmed_allocated_units : ℤ

pub record OfferingAllocation : Type 0 where
  pub terms_version : Text
  pub requested_units : ℤ
  pub payment_tinybars : ℤ
  pub remaining_capacity_units : ℤ

pub record ClearingSplitInput : Type 0 where
  pub expected_terms_version : Text
  pub verified_gross_tinybars : ℤ
  pub verified_cumulative_reserve_credits_tinybars : ℤ
  pub maturity_reached : Bool

pub record ClearingSplit : Type 0 where
  pub terms_version : Text
  pub gross_tinybars : ℤ
  pub reserve_tinybars : ℤ
  pub issuer_tinybars : ℤ

-- The eight values are parsed first; one test then throws if any is `undefined`.
abbrev canonical {ℓ} : {A : Type ℓ} → Option A → Result A
canonical none = err (type_error "offering values must use canonical exact-value strings")
canonical (some v) = ok v

-- The checks of `createOfferingTerms` after parsing, in order.
unfoldable pub check_terms : OfferingTerms → Result OfferingTerms
unfolding ◌*ℤ◌ ◌/ℤ◌
check_terms t = do
  throw_if
      (eqb_ℤ t.funding_target_tinybars (pos 0)
        || eqb_ℤ t.note_unit_price_tinybars (pos 0)
        || eqb_ℤ t.maximum_note_units (pos 0)
        || eqb_ℤ t.minimum_purchase_units (pos 0)
        || eqb_ℤ t.payout_cap_tinybars (pos 0))
      (range_error "offering amounts and units must be positive")
  throw_if
      (ltb_ℤ t.maximum_note_units t.minimum_purchase_units
        || ltb_ℤ t.funding_target_tinybars (t.maximum_note_units *ℤ t.note_unit_price_tinybars))
      (range_error "offering units must fit the capacity and funding target")
  throw_if
      (not (eqb_ℤ t.reserve_share_bps (pos 2000))
        || not (eqb_ℤ t.issuer_share_bps (pos 8000))
        || not (eqb_ℤ t.platform_fee_bps (pos 0)))
      (range_error "offering shares must be 2000/8000/0 basis points")
  throw_if
      (not (divides 2 t.funding_target_tinybars)
        || not (eqb_ℤ t.payout_cap_tinybars (t.funding_target_tinybars *ℤ pos 3 /ℤ 2)))
      (range_error "payout cap must be exactly 3/2 of an even funding target")
  ok t

unfoldable pub create_offering_terms : OfferingTermsInput → Result OfferingTerms
create_offering_terms input = do
  let version = trim input.version
  throw_if (length version == 0 || ltb 96 (length version))
      (range_error "version must contain between 1 and 96 characters")
  target ← canonical (parse_tinybar (string input.funding_target_tinybars))
  price ← canonical (parse_tinybar (string input.note_unit_price_tinybars))
  most ← canonical (parse_note_units (string input.maximum_note_units))
  least ← canonical (parse_note_units (string input.minimum_purchase_units))
  reserve ← canonical (parse_basis_points (string input.reserve_share_bps))
  issuer ← canonical (parse_basis_points (string input.issuer_share_bps))
  fee ← canonical (parse_basis_points (string input.platform_fee_bps))
  cap ← canonical (parse_tinybar (string input.payout_cap_tinybars))
  check_terms (record {
    version = version;
    funding_target_tinybars = target;
    note_unit_price_tinybars = price;
    maximum_note_units = most;
    minimum_purchase_units = least;
    reserve_share_bps = reserve;
    issuer_share_bps = issuer;
    platform_fee_bps = fee;
    payout_cap_tinybars = cap;
  })

unfoldable pub require_terms_version : OfferingTerms → Text → Result (Unit {0})
require_terms_version terms expected =
    throw_if (not (expected === terms.version))
      (range_error "expected terms version must match the offering terms")

unfoldable pub calculate_allocation :
    OfferingTerms → OfferingAllocationInput → Result OfferingAllocation
unfolding require_terms_version ◌+ℤ◌ ◌-ℤ◌ ◌*ℤ◌
calculate_allocation terms input = do
  require_terms_version terms input.expected_terms_version
  throw_if
      (leb_ℤ input.requested_units (pos 0)
        || ltb_ℤ input.requested_units terms.minimum_purchase_units)
      (range_error "requested units must be positive and meet the minimum")
  throw_if
      (ltb_ℤ input.confirmed_allocated_units (pos 0)
        || ltb_ℤ terms.maximum_note_units
            (input.confirmed_allocated_units +ℤ input.requested_units))
      (range_error "requested and confirmed units must fit offering capacity")
  ok (record {
    terms_version = terms.version;
    requested_units = input.requested_units;
    payment_tinybars = input.requested_units *ℤ terms.note_unit_price_tinybars;
    remaining_capacity_units =
        terms.maximum_note_units -ℤ input.confirmed_allocated_units -ℤ input.requested_units;
  })

unfoldable pub remaining_payout_capacity : OfferingTerms → Text → ℤ → Result ℤ
unfolding require_terms_version
remaining_payout_capacity terms expected credits = do
  require_terms_version terms expected
  throw_if (ltb_ℤ credits (pos 0))
      (range_error "verified cumulative reserve credits must not be negative")
  ok (
      if leb_ℤ terms.payout_cap_tinybars credits
      then pos 0
      else terms.payout_cap_tinybars -ℤ credits)

-- The reserve part of a clearing, from what the terms schedule and what the cap leaves.
unfoldable pub reserve_part : Bool → ℤ → ℤ → ℤ
reserve_part maturity scheduled remaining =
    if maturity then pos 0 else if ltb_ℤ scheduled remaining then scheduled else remaining

-- `maturityReached` is a boolean by its type here, so that its run-time check passes.
unfoldable pub calculate_clearing_split : OfferingTerms → ClearingSplitInput → Result ClearingSplit
unfolding remaining_payout_capacity
calculate_clearing_split terms input = do
  remaining ←
      remaining_payout_capacity terms input.expected_terms_version
        input.verified_cumulative_reserve_credits_tinybars
  throw_if (leb_ℤ input.verified_gross_tinybars (pos 0))
      (range_error "verified gross amount must be positive")
  let scheduled = input.verified_gross_tinybars *ℤ terms.reserve_share_bps /ℤ 10000
  let reserve = reserve_part input.maturity_reached scheduled remaining
  ok (record {
    terms_version = terms.version;
    gross_tinybars = input.verified_gross_tinybars;
    reserve_tinybars = reserve;
    issuer_tinybars = input.verified_gross_tinybars -ℤ reserve;
  })
