-- ===== src/Payload/Create/Sound.antt =====
-- What holds of a payload that packages/core/src/offering-create-payload.ts read.
use mathlib.Core.Path.{subst}
use tool.Common.{
  ℕ, suc, ◌≤◌, Bool, true, false, not, ◌||◌, none, some, List, [], ◌∷◌, length, All, Result, ok,
  err, ◌>>=◌, >>=-eq-ok, elim-eq-ok, throw_if, ok-injective, ltb, ◌==◌, if◌then◌else◌, Option, ◌≡◌,
  ◌≢◌, refl, ap, arith,
}
use tool.Common.Int.{ℤ, pos, ◌≤ℤ◌}
use tool.Common.Text.{Text, ◌===◌, ===_iff, trim}
use tool.Js.{Value, string, Heap, snapshot_exact_record}
use tool.Arrays.{bounded_array}
use tool.Arrays.Bounds.{bounded_array-length}
use tool.Value.{parse_tinybar}
use tool.Requirements.{utf8_encode}
use tool.Definition.{is_number, parse_offering_definition}
use tool.Definition.Sound.{IsOfferingDefinition, parse_offering_definition-IsOfferingDefinition}
use tool.Payload.{or_rejected, parse_public_id, parse_version, parse_idempotency_key, parse_expiry}
use tool.Payload.Narrative.{
  OfferingNarrative, rejected, narrative_fields, has_control, has_unpaired_surrogate,
  parse_narrative_string, parse_strings, parse_list, narrative_of, parse_narrative,
}
use tool.Payload.Create.{
  OfferingCreatePayload, payload_fields, within_prices, parse_price, payload_of,
  parse_offering_create_payload,
}

-- Nonblank, trimmed, and at most `most` bytes of UTF-8.
pub record IsNarrativeText (most : ℕ) (s : Text) : Type 0 where
  pub nonblank : s ≢ []
  pub trimmed : trim s ≡ s
  pub bounded : length (utf8_encode s) ≤ most

-- One to six texts.
pub record IsNarrativeList (ts : List Text) : Type 0 where
  pub least : 1 ≤ length ts
  pub most : length ts ≤ 6
  pub texts : All (IsNarrativeText 400) ts

pub record IsOfferingNarrative (n : OfferingNarrative) : Type 0 where
  pub title : IsNarrativeText 100 n.title
  pub problem : IsNarrativeText 1000 n.customer_problem
  pub use_cases : IsNarrativeList n.customer_use_cases
  pub funds : IsNarrativeList n.use_of_funds
  pub risks : IsNarrativeList n.risks

abbrev pub IsPrice : ℤ → Type 0
IsPrice z = (pos 1 ≤ℤ z) × (z ≤ℤ pos 10000000)

within_prices-IsPrice : (o : Option ℤ) (z : ℤ) → within_prices o ≡ ok z → IsPrice z
within_prices-IsPrice none z h = absurd cc
within_prices-IsPrice (some y) z h = ground arith

parse_price-IsPrice : (v : Value) (z : ℤ) → parse_price v ≡ ok z → IsPrice z
unfolding parse_price
parse_price-IsPrice (string s) z h =
    ground (arith, within_prices-IsPrice (parse_tinybar (string s)) z)
parse_price-IsPrice _ z h = absurd cc

narrative_kept :
    (a b c d e : Bool) (t s : Text)
    → (if a || b || c || d || e then err rejected else ok t) ≡ ok s
    → (t ≡ s) × (a ≡ false) × (b ≡ false) × (e ≡ false)
narrative_kept a b c d e t s h = ground arith

parse_narrative_string-IsNarrativeText :
    (most : ℕ) (v : Value) (s : Text)
    → parse_narrative_string most v ≡ ok s
    → IsNarrativeText most s
unfolding parse_narrative_string
parse_narrative_string-IsNarrativeText most (string t) s h =
    let (same, nonblank, trimmed, bounded) =
      narrative_kept (length t == 0) (not (trim t === t)) (has_control t) (has_unpaired_surrogate t)
        (ltb most (length (utf8_encode t))) t s h in
    subst (IsNarrativeText most) same record {
      nonblank = λ empty. let zero : (length t == 0) ≡ true = rw empty refl in cc;
      trimmed = (===_iff (trim t) t).0 (ground arith);
      bounded = ground arith;
    }
parse_narrative_string-IsNarrativeText most _ s h = absurd cc

parse_strings-All :
    (most : ℕ) (vs : List Value) (ts : List Text)
    → parse_strings most vs ≡ ok ts
    → (length ts ≡ length vs) × All (IsNarrativeText most) ts
unfolding parse_strings
parse_strings-All most [] ts h = ground arith
parse_strings-All most (v ∷ vs) ts h =
    let (t, t_ok, h1) = >>=-eq-ok (parse_narrative_string most v) _ h in
    let (rest, rest_ok, h2) = >>=-eq-ok (parse_strings most vs) _ h1 in
    let (same, all) = parse_strings-All most vs rest rest_ok in
    subst (λ l. (length l ≡ suc (length vs)) × All (IsNarrativeText most) l) (ok-injective h2)
      (ap suc same, (parse_narrative_string-IsNarrativeText most v t t_ok, all))

or_rejected-eq-ok :
    {A B : Type 0} (o : Option A) (next : A → Result B) {b : B}
    → (or_rejected rejected o >>= next) ≡ ok b
    → (a : A) × (o ≡ some a) × (next a ≡ ok b)
or_rejected-eq-ok none next h = cc
or_rejected-eq-ok (some a) next h = (a, refl, h)

parse_list-IsNarrativeList :
    (h : Heap) (v : Value) (ts : List Text) → parse_list h v ≡ ok ts → IsNarrativeList ts
unfolding parse_list
parse_list-IsNarrativeList h v ts e =
    let (vs, captured, read) = or_rejected-eq-ok (bounded_array 1 6 h v) (parse_strings 400) e in
    let (least, most) = bounded_array-length 1 6 h v vs captured in
    let (size, texts) = parse_strings-All 400 vs ts read in
    record { least = omega arith; most = omega arith; texts = texts }

narrative_of-IsOfferingNarrative :
    (h : Heap) (vs : List Value) (n : OfferingNarrative)
    → narrative_of h vs ≡ ok n
    → IsOfferingNarrative n
unfolding narrative_of
narrative_of-IsOfferingNarrative h (title ∷ problem ∷ use_cases ∷ funds ∷ risks ∷ []) n e =
    let (title', title_ok, e1) = >>=-eq-ok (parse_narrative_string 100 title) _ e in
    let (problem', problem_ok, e2) = >>=-eq-ok (parse_narrative_string 1000 problem) _ e1 in
    let (cases', cases_ok, e3) = >>=-eq-ok (parse_list h use_cases) _ e2 in
    let (funds', funds_ok, e4) = >>=-eq-ok (parse_list h funds) _ e3 in
    let (risks', risks_ok, e5) = >>=-eq-ok (parse_list h risks) _ e4 in
    subst IsOfferingNarrative (ok-injective e5) record {
      title = parse_narrative_string-IsNarrativeText 100 title title' title_ok;
      problem = parse_narrative_string-IsNarrativeText 1000 problem problem' problem_ok;
      use_cases = parse_list-IsNarrativeList h use_cases cases' cases_ok;
      funds = parse_list-IsNarrativeList h funds funds' funds_ok;
      risks = parse_list-IsNarrativeList h risks risks' risks_ok;
    }
narrative_of-IsOfferingNarrative h _ n e = absurd cc

parse_narrative-IsOfferingNarrative :
    (h : Heap) (v : Value) (n : OfferingNarrative)
    → parse_narrative h v ≡ ok n
    → IsOfferingNarrative n
unfolding parse_narrative
parse_narrative-IsOfferingNarrative h v n e =
    let (values, _, read) =
      elim-eq-ok (snapshot_exact_record h v narrative_fields) rejected (narrative_of h) e in
    narrative_of-IsOfferingNarrative h values n read

pub record IsOfferingCreatePayload (p : OfferingCreatePayload) : Type 0 where
  pub definition : IsOfferingDefinition p.definition
  pub narrative : IsOfferingNarrative p.narrative
  pub quick_price : IsPrice p.advertised_quick_price_tinybars
  pub standard_price : IsPrice p.advertised_standard_price_tinybars

payload_of-IsOfferingCreatePayload :
    (h : Heap) (vs : List Value) (p : OfferingCreatePayload)
    → payload_of h vs ≡ ok p
    → IsOfferingCreatePayload p
unfolding payload_of
payload_of-IsOfferingCreatePayload h
      (schema ∷ offering ∷ version ∷ subject ∷ definition ∷ narrative ∷ quick ∷ standard ∷ key
        ∷ expiry ∷ [])
      p e =
    let (_, _, e1) = >>=-eq-ok (throw_if (not (is_number 1 schema)) rejected) _ e in
    let (offering', _, e2) = >>=-eq-ok (parse_public_id rejected offering) _ e1 in
    let (version', _, e3) = >>=-eq-ok (parse_version rejected version) _ e2 in
    let (subject', _, e4) = >>=-eq-ok (parse_public_id rejected subject) _ e3 in
    let (definition', definition_ok, e5) =
      >>=-eq-ok (parse_offering_definition h definition) _ e4 in
    let (narrative', narrative_ok, e6) = >>=-eq-ok (parse_narrative h narrative) _ e5 in
    let (quick', quick_ok, e7) = >>=-eq-ok (parse_price quick) _ e6 in
    let (standard', standard_ok, e8) = >>=-eq-ok (parse_price standard) _ e7 in
    let (key', _, e9) = >>=-eq-ok (parse_idempotency_key rejected key) _ e8 in
    let (expiry', _, e10) = >>=-eq-ok (parse_expiry rejected expiry) _ e9 in
    subst IsOfferingCreatePayload (ok-injective e10) record {
      definition =
          parse_offering_definition-IsOfferingDefinition h definition definition' definition_ok;
      narrative = parse_narrative-IsOfferingNarrative h narrative narrative' narrative_ok;
      quick_price = parse_price-IsPrice quick quick' quick_ok;
      standard_price = parse_price-IsPrice standard standard' standard_ok;
    }
payload_of-IsOfferingCreatePayload h _ p e = absurd cc

-- A payload that is read holds a definition that satisfies the rules of definitions, prices from 1 to
-- 10000000, and a narrative whose texts are not empty, are trimmed, and have at most 100 bytes of
-- UTF-8 in the title, 1000 in the problem and 400 in each of the one to six texts of a list.
pub parse_offering_create_payload-IsOfferingCreatePayload :
    (h : Heap) (v : Value) (p : OfferingCreatePayload)
    → parse_offering_create_payload h v ≡ ok p
    → IsOfferingCreatePayload p
unfolding parse_offering_create_payload
parse_offering_create_payload-IsOfferingCreatePayload h v p e =
    let (values, _, read) =
      elim-eq-ok (snapshot_exact_record h v payload_fields) rejected (payload_of h) e in
    payload_of-IsOfferingCreatePayload h values p read
