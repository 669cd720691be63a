-- ===== src/Economics/Tests.antt =====
-- Terms of 100 note units at 10 tinybars each, and what is sold and cleared under them.
use tool.Common.{Bool, true, false, List, [], ◌∷◌, ok, ◌≡◌, ◌↔◌, refl}
use tool.Common.Int.{ℤ, pos, ◌+ℤ◌, ◌-ℤ◌, ◌*ℤ◌, ◌≤ℤ◌, ◌/ℤ◌}
use tool.Common.Text.{codes, trim, ◌===◌}
use tool.Value.{parse_tinybar, parse_note_units, parse_basis_points}
use tool.Economics.{
  OfferingTermsInput, OfferingTerms, OfferingAllocation, ClearingSplit, create_offering_terms,
  calculate_allocation, calculate_clearing_split, check_terms, reserve_part,
}
use tool.Economics.Terms.{IsOfferingTerms, IsExact, create_offering_terms-IsOfferingTerms}
use tool.Economics.Allocation.{
  IsAllocation, IsAllowed, order, sell, calculate_allocation_iff, sell-le-maximum,
}
use tool.Economics.Split.{
  IsSplit, clearing, clear, total_gross, calculate_clearing_split-IsSplit, clear-le-cap,
}

abbrev input : OfferingTermsInput
input = record {
  version = codes " v1 ";
  funding_target_tinybars = codes "1000";
  note_unit_price_tinybars = codes "10";
  maximum_note_units = codes "100";
  minimum_purchase_units = codes "1";
  reserve_share_bps = codes "2000";
  issuer_share_bps = codes "8000";
  platform_fee_bps = codes "0";
  payout_cap_tinybars = codes "1500";
}

abbrev terms : OfferingTerms
terms = record {
  version = codes "v1";
  funding_target_tinybars = pos 1000;
  note_unit_price_tinybars = pos 10;
  maximum_note_units = pos 100;
  minimum_purchase_units = pos 1;
  reserve_share_bps = pos 2000;
  issuer_share_bps = pos 8000;
  platform_fee_bps = pos 0;
  payout_cap_tinybars = pos 1500;
}

input-terms : create_offering_terms input ≡ ok terms
unfolding create_offering_terms trim parse_tinybar parse_note_units parse_basis_points check_terms
input-terms = refl

create_offering_terms-IsOfferingTerms_example : IsOfferingTerms terms × IsExact input terms
create_offering_terms-IsOfferingTerms_example =
    create_offering_terms-IsOfferingTerms input terms input-terms

terms-IsOfferingTerms : IsOfferingTerms terms
terms-IsOfferingTerms = (create_offering_terms-IsOfferingTerms input terms input-terms).0

abbrev bought : OfferingAllocation
bought = record {
  terms_version = codes "v1";
  requested_units = pos 30;
  payment_tinybars = pos 300;
  remaining_capacity_units = pos 10;
}

calculate_allocation_iff_example :
    (calculate_allocation terms (order terms (pos 60) (pos 30)) ≡ ok bought) ↔ (
      IsAllowed terms (order terms (pos 60) (pos 30))
      × IsAllocation terms (order terms (pos 60) (pos 30)) bought)
calculate_allocation_iff_example =
    calculate_allocation_iff terms (order terms (pos 60) (pos 30)) bought

bought_is_allocated : calculate_allocation terms (order terms (pos 60) (pos 30)) ≡ ok bought
unfolding calculate_allocation ◌===◌
bought_is_allocated = refl

sold : sell terms (pos 0) (pos 0) (pos 60 ∷ pos 40 ∷ []) ≡ ok (pos 100, pos 1000)
unfolding calculate_allocation sell ◌===◌ ◌*ℤ◌ ◌+ℤ◌ ◌-ℤ◌
sold = refl

sell-le-maximum_example :
    (pos 100 ≤ℤ pos 100) × (pos 1000 ≡ pos 100 *ℤ pos 10) × (pos 1000 ≤ℤ pos 1000)
sell-le-maximum_example =
    sell-le-maximum terms (pos 60 ∷ pos 40 ∷ []) (pos 100) (pos 1000) terms-IsOfferingTerms sold

abbrev split : ClearingSplit
split = record {
  terms_version = codes "v1";
  gross_tinybars = pos 101;
  reserve_tinybars = pos 20;
  issuer_tinybars = pos 81;
}

split_is_calculated :
    calculate_clearing_split terms (clearing terms (pos 0) (pos 101) false) ≡ ok split
unfolding calculate_clearing_split ◌===◌ reserve_part ◌-ℤ◌ ◌/ℤ◌ ◌*ℤ◌
split_is_calculated = refl

calculate_clearing_split-IsSplit_example :
    IsSplit terms (clearing terms (pos 0) (pos 101) false) split
calculate_clearing_split-IsSplit_example =
    calculate_clearing_split-IsSplit terms (clearing terms (pos 0) (pos 101) false) split
      terms-IsOfferingTerms split_is_calculated

abbrev clearings : List (ℤ × Bool)
clearings = (pos 7000, false) ∷ (pos 2000, false) ∷ (pos 5, true) ∷ []

cleared : clear terms (pos 0) (pos 0) clearings ≡ ok (pos 1500, pos 7505)
unfolding calculate_clearing_split clear ◌===◌ reserve_part ◌-ℤ◌ ◌/ℤ◌ ◌*ℤ◌ ◌+ℤ◌
cleared = refl

clear-le-cap_example :
    (pos 1500 ≤ℤ pos 1500) × (pos 0 ≤ℤ pos 1500) × (pos 1500 +ℤ pos 7505 ≡ total_gross clearings)
clear-le-cap_example =
    clear-le-cap terms clearings (pos 1500) (pos 7505) terms-IsOfferingTerms cleared
