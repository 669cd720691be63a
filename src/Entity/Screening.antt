-- ===== src/Entity/Screening.antt =====
-- Which candidate packages/core/src/entity-check.ts screens, and when its screen is clear.
use mathlib.Core.Path.{subst}
use tool.Common.{
  ℕ, Bool, Option, none, some, List, [], ◌∷◌, ◌++◌, All, ◌==◌, length, take, if◌then◌else◌, ◌≡◌,
  ◌≢◌, ◌↔◌, ◌⊎◌, inl, inr, refl, sym, ap, ◌∙◌, arith, Bool-cases,
}
use tool.Common.Text.{Text, ◌===◌, ===_iff}
use tool.Entity.Read.{EntityCheckRequest, EntityRegistryCandidate, EntitySanctionsEntry}
use tool.Entity.{
  found_clear, ambiguous, not_found, only_one, summaries, with_siren, choose_candidate, matches,
  screen_name, screen_candidates,
}

abbrev pub Only : Text → List EntityRegistryCandidate → EntityRegistryCandidate → Type 0
Only siren candidates c =
    (before : List EntityRegistryCandidate) × (after : List EntityRegistryCandidate) × (candidates
      ≡ before ++ (c ∷ after))
    × (c.siren ≡ siren)
    × All (λ o. o.siren ≢ siren) before
    × All (λ o. o.siren ≢ siren) after

-- The only candidate, or the only one with the number that was asked for.
abbrev pub Screened : Option Text → List EntityRegistryCandidate → EntityRegistryCandidate → Type 0
Screened number candidates c =
    (candidates ≡ c ∷ []) ⊎ ((siren : Text) × (number ≡ some siren) × Only siren candidates c)

module _ (siren : Text) where
  with_siren-none :
      (cs : List EntityRegistryCandidate)
      → (with_siren siren cs ≡ []) ↔ All (λ o. o.siren ≢ siren) cs
  unfolding with_siren
  with_siren-none [] = (λ h. tt, λ h. refl)
  with_siren-none (o ∷ cs) = ground (arith, ===_iff o.siren siren, with_siren-none cs)

  with_siren→Only :
      (cs : List EntityRegistryCandidate) (c : EntityRegistryCandidate)
      → with_siren siren cs ≡ c ∷ []
      → Only siren cs c
  unfolding with_siren
  with_siren→Only [] c h = absurd cc
  with_siren→Only (o ∷ cs) c h = elim (Bool-cases (o.siren === siren)) [
    | inl same ↦
        let first : o ≡ c = ground arith in
        let others : with_siren siren cs ≡ [] = ground arith in
        (
          [],
          cs,
          rw first refl,
          ap (λ x. x.siren) (sym first) ∙ (===_iff o.siren siren).0 same,
          tt,
          (with_siren-none cs).0 others,
        )
    | inr differs ↦
        let (before, after, e, same, others, others') = with_siren→Only cs c (ground arith) in
        let first : o.siren ≢ siren = ground (arith, ===_iff o.siren siren) in
        (o ∷ before, after, ap (λ l. o ∷ l) e, same, (first, others), others')
  ]

  with_siren-append :
      (before cs : List EntityRegistryCandidate)
      → All (λ o. o.siren ≢ siren) before
      → with_siren siren (before ++ cs) ≡ with_siren siren cs
  unfolding with_siren
  with_siren-append [] cs h = refl
  with_siren-append (o ∷ before) cs (other, others) =
      ground (arith, ===_iff o.siren siren, with_siren-append before cs others)

  Only→with_siren :
      (cs : List EntityRegistryCandidate) (c : EntityRegistryCandidate)
      → Only siren cs c
      → with_siren siren cs ≡ c ∷ []
  unfolding with_siren
  Only→with_siren cs c (before, after, e, same, others, others') =
      ap (with_siren siren) e
      ∙ with_siren-append before (c ∷ after) others
      ∙ ground (arith, ===_iff c.siren siren, with_siren-none after)

only_one_iff :
    (cs : List EntityRegistryCandidate) (c : EntityRegistryCandidate)
    → (only_one cs ≡ some c) ↔ (cs ≡ c ∷ [])
only_one_iff [] c = ground arith
only_one_iff (o ∷ []) c = ground arith
only_one_iff (o ∷ o' ∷ cs) c = ground arith

-- The candidate with the number wins; it is the only candidate where there is no other.
preferred :
    {A : Type 0} (o o' : Option A) (c : A)
    → (elim o [ some a ↦ some a | none ↦ o' ]) ≡ some c
    → (o ≡ some c) ⊎ (o' ≡ some c)
preferred none o' c h = inr h
preferred (some a) o' c h = inl h

chosen→Screened :
    (siren : Text) (cs : List EntityRegistryCandidate) (c : EntityRegistryCandidate)
    → choose_candidate (some siren) cs ≡ some c
    → Screened (some siren) cs c
unfolding choose_candidate
chosen→Screened siren cs c h = elim (preferred (only_one (with_siren siren cs)) (only_one cs) c h) [
  | inl e ↦
      inr (siren, refl, with_siren→Only siren cs c ((only_one_iff (with_siren siren cs) c).0 e))
  | inr e ↦ inl ((only_one_iff cs c).0 e)
]

single :
    (siren : Text) (c : EntityRegistryCandidate) → choose_candidate (some siren) (c ∷ []) ≡ some c
unfolding choose_candidate with_siren
single siren c = ground arith

Screened→chosen :
    (siren : Text) (cs : List EntityRegistryCandidate) (c : EntityRegistryCandidate)
    → Screened (some siren) cs c
    → choose_candidate (some siren) cs ≡ some c
unfolding choose_candidate
Screened→chosen siren cs c (inl e) = ap (choose_candidate (some siren)) e ∙ single siren c
Screened→chosen siren cs c (inr (other, e, only)) =
    let same : other ≡ siren = cc in
    let one = Only→with_siren siren cs c (subst (λ s. Only s cs c) same only) in
    ap (λ l. elim (only_one l) [ some a ↦ some a | none ↦ only_one cs ]) one

choose_candidate_iff :
    (number : Option Text) (cs : List EntityRegistryCandidate) (c : EntityRegistryCandidate)
    → (choose_candidate number cs ≡ some c) ↔ Screened number cs c
unfolding choose_candidate
choose_candidate_iff none cs c = (
  λ h. inl ((only_one_iff cs c).0 h),
  λ h. elim h [ inl e ↦ (only_one_iff cs c).1 e | inr (siren, e, only) ↦ absurd cc ],
)
choose_candidate_iff (some siren) cs c = (chosen→Screened siren cs c, Screened→chosen siren cs c)

module _ (normalise : Text → Text) where
  matches-none :
      (name : Text) (es : List EntitySanctionsEntry)
      → (matches normalise name es ≡ []) ↔ All (λ e. normalise e.name ≢ name) es
  unfolding matches
  matches-none name [] = (λ h. tt, λ h. refl)
  matches-none name (e ∷ es) = ground (arith, ===_iff (normalise e.name) name, matches-none name es)

  screen_name_iff :
      (o c : EntityRegistryCandidate) (es : List EntitySanctionsEntry)
      → (screen_name normalise o es ≡ found_clear c) ↔ ((o ≡ c) × (es ≡ []))
  unfolding screen_name
  screen_name_iff o c [] = ground arith
  screen_name_iff o c (e ∷ es) = ground arith

  clear_of :
      (o : Option EntityRegistryCandidate) (unscreened : Bool) (n : ℕ) (l : List (Text × Text))
      (es : List EntitySanctionsEntry) (c : EntityRegistryCandidate)
      → ((elim o [
        | some a ↦ screen_name normalise a (matches normalise (normalise a.legal_name) es)
        | none ↦ if unscreened then not_found else ambiguous n l
      ])
          ≡ found_clear c)
        ↔ ((o ≡ some c) × (matches normalise (normalise c.legal_name) es ≡ []))
  clear_of none unscreened n l es c = ground arith
  clear_of (some a) unscreened n l es c =
      let (forth, back) = screen_name_iff a c (matches normalise (normalise a.legal_name) es) in
      (
        λ h.
            let (same, no_match) = forth h in
            (
              ap some same,
              subst (λ x. matches normalise (normalise x.legal_name) es ≡ []) same no_match,
            ),
        λ (h, no_match).
            let same : a ≡ c = cc in
            back (
              same,
              subst (λ x. matches normalise (normalise x.legal_name) es ≡ []) (sym same) no_match,
            ),
      )

  -- The screen is clear for the candidate c exactly when c is the candidate to screen (the only one there
  -- is, or the only one with the registration number of the request) and no entry of the list has,
  -- normalised, the normalised legal name of c.
  pub screen_candidates-clear_iff :
      (request : EntityCheckRequest) (candidates : List EntityRegistryCandidate)
      (entries : List EntitySanctionsEntry) (c : EntityRegistryCandidate)
      → (screen_candidates normalise request candidates entries ≡ found_clear c) ↔ (
          Screened request.registration_number candidates c
          × All (λ e. normalise e.name ≢ normalise c.legal_name) entries)
  unfolding screen_candidates
  screen_candidates-clear_iff request candidates entries c =
      let chosen = choose_candidate request.registration_number candidates in
      let (forth, back) =
        clear_of chosen (length candidates == 0) (length candidates) (summaries (take 5 candidates))
          entries c in
      let name = normalise c.legal_name in
      (
        λ h.
            let (e, no_match) = forth h in
            (
              (choose_candidate_iff request.registration_number candidates c).0 e,
              (matches-none name entries).0 no_match,
            ),
        λ (screened, others). back (
          (choose_candidate_iff request.registration_number candidates c).1 screened,
          (matches-none name entries).1 others,
        ),
      )
