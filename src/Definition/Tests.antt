-- ===== src/Definition/Tests.antt =====
-- A definition of 100 note units at 10 tinybars each.
use tool.Common.{ok, [], ◌∷◌, ◌≡◌, refl, zero, suc}
use tool.Common.Int.{pos}
use tool.Common.Text.{codes}
use tool.Js.{string, number, integral, object, Heap, object_literal}
use tool.Economics.{OfferingTerms}
use tool.Definition.{OfferingDefinition, parse_offering_definition}
use tool.Definition.Sound.{IsOfferingDefinition, parse_offering_definition-IsOfferingDefinition}

abbrev pub definition : OfferingDefinition
definition = record {
  schema_version = 1;
  terms = record {
    version = codes "v1";
    funding_target_tinybars = pos 1000;
    note_unit_price_tinybars = pos 10;
    maximum_note_units = pos 100;
    minimum_purchase_units = pos 1;
    reserve_share_bps = pos 2000;
    issuer_share_bps = pos 8000;
    platform_fee_bps = pos 0;
    payout_cap_tinybars = pos 1500;
  };
  maturity_at = codes "2028-02-29T00:00:00.000Z";
  qualifying_resource = codes "/api/riskscan";
}

abbrev heap : Heap
heap zero = object_literal (
    (codes "schemaVersion", number (integral (pos 1)))
    ∷ (codes "terms", object 1)
    ∷ (codes "maturityAt", string (codes "2028-02-29T00:00:00.000Z"))
    ∷ (codes "qualifyingResource", string (codes "/api/riskscan"))
    ∷ [])
heap (suc r) = object_literal (
    (codes "version", string (codes "v1"))
    ∷ (codes "fundingTargetTinybars", string (codes "1000"))
    ∷ (codes "noteUnitPriceTinybars", string (codes "10"))
    ∷ (codes "maximumNoteUnits", string (codes "100"))
    ∷ (codes "minimumPurchaseUnits", string (codes "1"))
    ∷ (codes "reserveShareBps", string (codes "2000"))
    ∷ (codes "issuerShareBps", string (codes "8000"))
    ∷ (codes "platformFeeBps", string (codes "0"))
    ∷ (codes "payoutCapTinybars", string (codes "1500"))
    ∷ [])

is_read : parse_offering_definition heap (object 0) ≡ ok definition
unfolding parse_offering_definition object_literal tool.Value.parse_tinybar
    tool.Value.parse_note_units tool.Value.parse_basis_points tool.Economics.check_terms
is_read = refl

parse_offering_definition-IsOfferingDefinition_example : IsOfferingDefinition definition
parse_offering_definition-IsOfferingDefinition_example =
    parse_offering_definition-IsOfferingDefinition heap (object 0) definition is_read
