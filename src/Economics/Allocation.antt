-- ===== src/Economics/Allocation.antt =====
-- Allocations of note units: when one is granted, what it costs, and that no history oversells.
use tool.Common.{◌≡◌, ◌↔◌, arith, Result, ok, ◌>>=◌, Result-cases, inl, inr, sym, List, [], ◌∷◌}
use tool.Common.Int.{ℤ, pos, ◌+ℤ◌, ◌-ℤ◌, ◌*ℤ◌, ◌≤ℤ◌, ◌<ℤ◌, int_laws, *ℤ_mono, zero-*ℤ, distribute}
use tool.Common.Text.{===_iff}
use tool.Economics.{
  OfferingTerms, OfferingAllocationInput, OfferingAllocation, calculate_allocation,
}
use tool.Economics.Terms.{IsOfferingTerms}

-- What an accepted allocation satisfies.
pub record IsAllocation (t : OfferingTerms) (i : OfferingAllocationInput) (a : OfferingAllocation)
    : Type 0 where
  pub version : a.terms_version ≡ t.version
  pub requested : a.requested_units ≡ i.requested_units
  pub payment : a.payment_tinybars ≡ i.requested_units *ℤ t.note_unit_price_tinybars
  pub capacity :
      i.confirmed_allocated_units +ℤ i.requested_units +ℤ a.remaining_capacity_units
      ≡ t.maximum_note_units
  pub remaining_nonneg : pos 0 ≤ℤ a.remaining_capacity_units

-- The conditions under which units are allocated.
pub record IsAllowed (t : OfferingTerms) (i : OfferingAllocationInput) : Type 0 where
  pub version : i.expected_terms_version ≡ t.version
  pub positive : pos 0 <ℤ i.requested_units
  pub minimum : t.minimum_purchase_units ≤ℤ i.requested_units
  pub confirmed : pos 0 ≤ℤ i.confirmed_allocated_units
  pub fits : i.confirmed_allocated_units +ℤ i.requested_units ≤ℤ t.maximum_note_units

granted :
    (t : OfferingTerms) (i : OfferingAllocationInput) (a : OfferingAllocation)
    → calculate_allocation t i ≡ ok a
    → IsAllowed t i × IsAllocation t i a
unfolding calculate_allocation
granted t i a h = ground (arith, ===_iff i.expected_terms_version t.version)

remaining_units :
    (most confirmed requested remaining : ℤ)
    → confirmed +ℤ requested +ℤ remaining ≡ most
    → most -ℤ confirmed -ℤ requested ≡ remaining
remaining_units most confirmed requested remaining e = rw (← e) (omega int_laws)

accepted :
    (t : OfferingTerms) (i : OfferingAllocationInput) (a : OfferingAllocation)
    → IsAllowed t i × IsAllocation t i a
    → calculate_allocation t i ≡ ok a
unfolding calculate_allocation
accepted t i a (c, e) = ground (
  arith,
  ===_iff i.expected_terms_version t.version,
  remaining_units t.maximum_note_units i.confirmed_allocated_units i.requested_units
      a.remaining_capacity_units,
)

-- Whatever the terms, units are allocated exactly if the version matches, the requested units are
-- positive and meet the minimum, the confirmed units are not negative, and both together fit the
-- maximum. The allocation is exact: the payment is the price times the units, and confirmed,
-- requested and remaining units add up to the maximum.
pub calculate_allocation_iff :
    (t : OfferingTerms) (i : OfferingAllocationInput) (a : OfferingAllocation)
    → (calculate_allocation t i ≡ ok a) ↔ (IsAllowed t i × IsAllocation t i a)
calculate_allocation_iff t i a = (granted t i a, accepted t i a)

abbrev pub order : OfferingTerms → ℤ → ℤ → OfferingAllocationInput
order t confirmed requested = record {
  expected_terms_version = t.version;
  requested_units = requested;
  confirmed_allocated_units = confirmed;
}

-- The sales of one offering, in order: each request is allocated against the units confirmed so
-- far, and its units and its payment are added up.
unfoldable pub sell : OfferingTerms → ℤ → ℤ → List ℤ → Result (ℤ × ℤ)
sell t units paid [] = ok (units, paid)
sell t units paid (r ∷ rs) = do
  a ← calculate_allocation t (order t units r)
  sell t (units +ℤ a.requested_units) (paid +ℤ a.payment_tinybars) rs

sell-le :
    (t : OfferingTerms) (rs : List ℤ) (u p units paid : ℤ)
    → u ≤ℤ t.maximum_note_units
    → p ≡ u *ℤ t.note_unit_price_tinybars
    → sell t u p rs ≡ ok (units, paid)
    → (units ≤ℤ t.maximum_note_units) × (paid ≡ units *ℤ t.note_unit_price_tinybars)
unfolding sell
sell-le t [] u p units paid m e h = ground arith
sell-le t (r ∷ rs) u p units paid m e h =
    elim (Result-cases (calculate_allocation t (order t u r))) [
      | inl (a, ea) ↦
          let (c, x) = granted t (order t u r) a ea in
          sell-le t rs (u +ℤ a.requested_units) (p +ℤ a.payment_tinybars) units paid
            (rw x.requested c.fits)
            (rw (e, x.payment, x.requested) (sym (distribute u r t.note_unit_price_tinybars)))
            (rw ea at h)
      | inr (x, ex) ↦ absurd (ground arith)
    ]

-- However the requests come, an offering never sells more units than its maximum, and the payments
-- are the price times the units sold, which fits the funding target.
pub sell-le-maximum :
    (t : OfferingTerms) (rs : List ℤ) (units paid : ℤ)
    → IsOfferingTerms t
    → sell t (pos 0) (pos 0) rs ≡ ok (units, paid)
    → (units ≤ℤ t.maximum_note_units)
      × (paid ≡ units *ℤ t.note_unit_price_tinybars)
      × (paid ≤ℤ t.funding_target_tinybars)
sell-le-maximum t rs units paid w h =
    let (le, e) =
      sell-le t rs (pos 0) (pos 0) units paid (omega (arith, w.minimum_pos, w.minimum_le))
        (sym (zero-*ℤ t.note_unit_price_tinybars)) h in
    let dear =
      *ℤ_mono units t.maximum_note_units t.note_unit_price_tinybars le
        (omega (arith, w.price_pos)) in
    (le, e, rw e (omega (arith, dear, w.funds_fit)))
