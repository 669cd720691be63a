-- ===== src/Economics/Split.antt =====
-- Clearing splits: what goes to the reserve and to the issuer, and that no history exceeds the cap.
use tool.Common.{
  ℕ, ◌/◌, ◌≡◌, ap, ◌∙◌, arith, Bool, true, false, Result, ok, ◌>>=◌, List, [], ◌∷◌, Result-cases,
  inl, inr, if◌then◌else◌,
}
use tool.Common.Int.{
  ℤ, pos, ◌+ℤ◌, ◌-ℤ◌, ◌*ℤ◌, ◌/ℤ◌, ◌≤ℤ◌, ◌<ℤ◌, int_laws, pos_part, neg_part, leb_ℤ, *ℤ_parts,
  nonneg→pos,
}
use tool.Economics.{
  OfferingTerms, ClearingSplitInput, ClearingSplit, calculate_clearing_split, reserve_part,
}
use tool.Economics.Terms.{IsOfferingTerms}

-- A fifth of the gross amount, rounded down.
fifth : (g : ℕ) → pos g *ℤ pos 2000 /ℤ 10000 ≡ pos (g / 5)
unfolding ◌*ℤ◌ ◌/ℤ◌
fifth g = ground arith

-- What a split satisfies: it pays out the gross amount in full; the reserve gets nothing after
-- maturity, and before it a fifth of the gross, rounded down, or what the payout cap leaves if that
-- is less.
pub record IsSplit (t : OfferingTerms) (i : ClearingSplitInput) (s : ClearingSplit) : Type 0 where
  pub version : s.terms_version ≡ t.version
  pub gross : s.gross_tinybars ≡ i.verified_gross_tinybars
  pub gross_pos : pos 0 <ℤ i.verified_gross_tinybars
  pub whole : s.reserve_tinybars +ℤ s.issuer_tinybars ≡ i.verified_gross_tinybars
  pub reserve_nonneg : pos 0 ≤ℤ s.reserve_tinybars
  pub fifth_at_most : s.reserve_tinybars *ℤ pos 5 ≤ℤ i.verified_gross_tinybars
  pub matured : i.maturity_reached ≡ true → s.reserve_tinybars ≡ pos 0
  pub capped :
      i.verified_cumulative_reserve_credits_tinybars ≤ℤ t.payout_cap_tinybars
      → i.verified_cumulative_reserve_credits_tinybars +ℤ s.reserve_tinybars
        ≤ℤ t.payout_cap_tinybars
  pub exhausted :
      t.payout_cap_tinybars ≤ℤ i.verified_cumulative_reserve_credits_tinybars
      → s.reserve_tinybars ≡ pos 0
  pub unhindered :
      i.maturity_reached ≡ false
      → i.verified_cumulative_reserve_credits_tinybars
          +ℤ pos (pos_part i.verified_gross_tinybars / 5)
        ≤ℤ t.payout_cap_tinybars
      → s.reserve_tinybars ≡ pos (pos_part i.verified_gross_tinybars / 5)
  pub limited :
      i.maturity_reached ≡ false
      → i.verified_cumulative_reserve_credits_tinybars ≤ℤ t.payout_cap_tinybars
      → t.payout_cap_tinybars
        ≤ℤ i.verified_cumulative_reserve_credits_tinybars
          +ℤ pos (pos_part i.verified_gross_tinybars / 5)
      → i.verified_cumulative_reserve_credits_tinybars +ℤ s.reserve_tinybars ≡ t.payout_cap_tinybars

abbrev room : OfferingTerms → ClearingSplitInput → ℤ
room t i =
    if leb_ℤ t.payout_cap_tinybars i.verified_cumulative_reserve_credits_tinybars
    then pos 0
    else t.payout_cap_tinybars -ℤ i.verified_cumulative_reserve_credits_tinybars

abbrev reserved : OfferingTerms → ClearingSplitInput → ℤ
reserved t i =
    reserve_part i.maturity_reached (i.verified_gross_tinybars *ℤ t.reserve_share_bps /ℤ 10000)
      (room t i)

record Splits (t : OfferingTerms) (i : ClearingSplitInput) (s : ClearingSplit) : Type 0 where
  version : s.terms_version ≡ t.version
  gross : s.gross_tinybars ≡ i.verified_gross_tinybars
  credits_nonneg : pos 0 ≤ℤ i.verified_cumulative_reserve_credits_tinybars
  gross_pos : pos 0 <ℤ i.verified_gross_tinybars
  reserve : s.reserve_tinybars ≡ reserved t i
  issuer : s.issuer_tinybars ≡ i.verified_gross_tinybars -ℤ reserved t i

calculate_clearing_split-Splits :
    (t : OfferingTerms) (i : ClearingSplitInput) (s : ClearingSplit)
    → calculate_clearing_split t i ≡ ok s
    → Splits t i s
unfolding calculate_clearing_split
calculate_clearing_split-Splits t i s h = ground arith

-- The reserve part, of a gross amount `g` against a cap and the credits so far.
module _ (m : Bool) (g : ℕ) (cap credits : ℤ) where
  abbrev part : ℤ
  part = reserve_part m (pos (g / 5)) (if leb_ℤ cap credits then pos 0 else cap -ℤ credits)

  part_nonneg : pos 0 ≤ℤ part
  unfolding reserve_part ◌-ℤ◌
  part_nonneg = ground arith

  part-le-fifth : part ≤ℤ pos (g / 5)
  unfolding reserve_part ◌-ℤ◌
  part-le-fifth = ground arith

  part_capped : credits ≤ℤ cap → credits +ℤ part ≤ℤ cap
  unfolding reserve_part ◌-ℤ◌ ◌+ℤ◌
  part_capped h = ground arith

  part_exhausted : cap ≤ℤ credits → part ≡ pos 0
  unfolding reserve_part ◌-ℤ◌
  part_exhausted h = ground arith

  part_unhindered : m ≡ false → credits +ℤ pos (g / 5) ≤ℤ cap → part ≡ pos (g / 5)
  unfolding reserve_part ◌-ℤ◌ ◌+ℤ◌
  part_unhindered h k = ground arith

  part_limited : m ≡ false → credits ≤ℤ cap → cap ≤ℤ credits +ℤ pos (g / 5) → credits +ℤ part ≡ cap
  unfolding reserve_part ◌-ℤ◌ ◌+ℤ◌
  part_limited h k l = ground arith

  part_matured : m ≡ true → part ≡ pos 0
  unfolding reserve_part
  part_matured h = ground arith

-- A split under well-formed terms has reserve and issuer add up to the positive gross, and a reserve
-- that is not negative and at most a fifth of it. The reserve is nothing once maturity is reached,
-- stays within what the cap leaves, is nothing when the cap is exhausted, and before maturity is the
-- fifth, rounded down, or what the cap leaves where that is less.
pub calculate_clearing_split-IsSplit :
    (t : OfferingTerms) (i : ClearingSplitInput) (s : ClearingSplit)
    → IsOfferingTerms t
    → calculate_clearing_split t i ≡ ok s
    → IsSplit t i s
calculate_clearing_split-IsSplit t i s w h =
    let p = calculate_clearing_split-Splits t i s h in
    let five : i.verified_gross_tinybars *ℤ t.reserve_share_bps /ℤ 10000
        ≡ pos (pos_part i.verified_gross_tinybars / 5) =
      rw (w.reserve_share, nonneg→pos i.verified_gross_tinybars (omega (arith, p.gross_pos)))
        (fifth _) in
    let g = pos_part i.verified_gross_tinybars in
    let m = i.maturity_reached in
    let cap = t.payout_cap_tinybars in
    let natural = nonneg→pos i.verified_gross_tinybars (omega (arith, p.gross_pos)) in
    let credits = i.verified_cumulative_reserve_credits_tinybars in
    let r : s.reserve_tinybars ≡ part m g cap credits =
      p.reserve ∙ ap (λ x. reserve_part i.maturity_reached x (room t i)) five in
    record {
      version = p.version;
      gross = p.gross;
      gross_pos = p.gross_pos;
      whole = rw (p.reserve, p.issuer) (omega int_laws);
      reserve_nonneg = rw r (part_nonneg m g cap credits);
      fifth_at_most = rw r (
          omega (
            arith,
            *ℤ_parts (part m g cap credits) (pos 5),
            part-le-fifth m g cap credits,
            ap neg_part natural,
          ));
      matured = λ after. rw r (part_matured m g cap credits after);
      capped = λ c. rw r (part_capped m g cap credits c);
      exhausted = λ c. rw r (part_exhausted m g cap credits c);
      limited = λ before c d. rw r (part_limited m g cap credits before c d);
      unhindered = λ before c. rw r (part_unhindered m g cap credits before c);
    }

abbrev pub clearing : OfferingTerms → ℤ → ℤ → Bool → ClearingSplitInput
clearing t credits gross matured = record {
  expected_terms_version = t.version;
  verified_gross_tinybars = gross;
  verified_cumulative_reserve_credits_tinybars = credits;
  maturity_reached = matured;
}

zero-right :
    (c n credits issuer : ℤ) → credits ≡ c → issuer ≡ n → credits +ℤ issuer ≡ c +ℤ n +ℤ pos 0
zero-right c n credits issuer e f = rw (e, f) (omega int_laws)

-- The clearings of one offering, in order: each against the reserve credits of those before it. The
-- result is the credits and what the issuer has got.
unfoldable pub clear : OfferingTerms → ℤ → ℤ → List (ℤ × Bool) → Result (ℤ × ℤ)
clear t credits issuer [] = ok (credits, issuer)
clear t credits issuer ((gross, matured) ∷ rest) = do
  s ← calculate_clearing_split t (clearing t credits gross matured)
  clear t (credits +ℤ s.reserve_tinybars) (issuer +ℤ s.issuer_tinybars) rest

abbrev pub total_gross : List (ℤ × Bool) → ℤ
total_gross [] = pos 0
total_gross ((gross, _) ∷ rest) = gross +ℤ total_gross rest

regroup :
    (c n g reserve issuer rest : ℤ)
    → reserve +ℤ issuer ≡ g
    → c +ℤ reserve +ℤ (n +ℤ issuer) +ℤ rest ≡ c +ℤ n +ℤ (g +ℤ rest)
regroup c n g reserve issuer rest e = rw (← e) (omega int_laws)

left_zeros : (a : ℤ) → pos 0 +ℤ pos 0 +ℤ a ≡ a
left_zeros a = omega int_laws

cap_nonneg : (t : OfferingTerms) → IsOfferingTerms t → pos 0 ≤ℤ t.payout_cap_tinybars
cap_nonneg t w = omega (
  arith,
  *ℤ_parts t.payout_cap_tinybars (pos 2),
  *ℤ_parts t.funding_target_tinybars (pos 3),
  ap pos_part w.cap,
  ap neg_part w.cap,
  w.target_pos,
)

clear-le :
    (t : OfferingTerms) (l : List (ℤ × Bool)) (c n credits issuer : ℤ)
    → IsOfferingTerms t
    → c ≤ℤ t.payout_cap_tinybars
    → clear t c n l ≡ ok (credits, issuer)
    → (credits ≤ℤ t.payout_cap_tinybars)
      × (c ≤ℤ credits)
      × (credits +ℤ issuer ≡ c +ℤ n +ℤ total_gross l)
unfolding clear
clear-le t [] c n credits issuer w k h = ground (arith, zero-right c n credits issuer)
clear-le t ((g, m) ∷ l) c n credits issuer w k h =
    elim (Result-cases (calculate_clearing_split t (clearing t c g m))) [
      | inl (s, e) ↦
          let x = calculate_clearing_split-IsSplit t (clearing t c g m) s w e in
          let (capped, grown, sum) =
            clear-le t l (c +ℤ s.reserve_tinybars) (n +ℤ s.issuer_tinybars) credits issuer w
              (x.capped k) (rw e at h) in
          (
            capped,
            omega (int_laws, grown, x.reserve_nonneg),
            sum ∙ regroup c n g s.reserve_tinybars s.issuer_tinybars (total_gross l) x.whole,
          )
      | inr (x, e) ↦ absurd (ground arith)
    ]

-- Over any sequence of clearings of an offering that succeeds, the reserve credits do not exceed the
-- payout cap, and reserve and issuer together get exactly what was cleared.
pub clear-le-cap :
    (t : OfferingTerms) (l : List (ℤ × Bool)) (credits issuer : ℤ)
    → IsOfferingTerms t
    → clear t (pos 0) (pos 0) l ≡ ok (credits, issuer)
    → (credits ≤ℤ t.payout_cap_tinybars) × (pos 0 ≤ℤ credits) × (credits +ℤ issuer ≡ total_gross l)
clear-le-cap t l credits issuer w h =
    let (capped, grown, sum) = clear-le t l (pos 0) (pos 0) credits issuer w (cap_nonneg t w) h in
    (capped, grown, sum ∙ left_zeros (total_gross l))
