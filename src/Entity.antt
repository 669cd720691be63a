-- ===== src/Entity.antt =====
-- packages/core/src/entity-check.ts: the check of a company against a public registry and a sanctions
-- list. Entity/Dates and Entity/Read read the input; here is the assessment.
--
-- `normaliseEntityName` uses the Unicode tables of the host (`normalize`, `\p{M}`, `\p{P}`,
-- `toUpperCase`): it is the parameter `normalise`. All failures throw one error.
pub mod Dates
pub mod Read
pub mod Parse
pub mod Screening
mod Tests
use tool.Common.{
  ℕ, zero, suc, Bool, true, false, not, ◌&&◌, Option, none, some, List, [], ◌∷◌, length, take, ◌==◌,
  if◌then◌else◌, Result, ok, err, Error, type_error, ◌>>=◌,
}
use tool.Common.Text.{Text, codes, ◌===◌}
use tool.Js.{Value, Heap}
use Dates.{Clock}
use Read.{
  EntityCheckRequest, EntityRegistryCandidate, EntitySanctionsEntry, EntityCheckAssessmentInput,
}
use Parse.{parse_entity_check_request, parse_assessment_input}

pub data Screen : Type 0 where
  found_clear : EntityRegistryCandidate → Screen
  found_hit : EntityRegistryCandidate → List EntitySanctionsEntry → Screen
  ambiguous : (candidate_count : ℕ) → List (Text × Text) → Screen
  not_found : Screen

-- The sources are those of the input.
pub record EntityCheckResult : Type 0 where
  pub request : EntityCheckRequest
  pub read_at : Text
  pub last_modified : Text
  pub content_hash : Text
  pub limitations : List Text
  pub screen : Screen

abbrev pub baseline_limitation : Text
baseline_limitation =
    codes
      "EntityCheck reflects two public sources at the time they were read and does not verify ownership, solvency, or compliance; a clear screen is not a compliance opinion."

abbrev pub ambiguity_limitation : Text
ambiguity_limitation = codes "Supply the SIREN as registrationNumber to disambiguate."

-- `candidates.filter((candidate) => candidate.siren === request.registrationNumber)`
unfoldable pub with_siren : Text → List EntityRegistryCandidate → List EntityRegistryCandidate
unfolding ◌===◌
with_siren siren [] = []
with_siren siren (c ∷ cs) =
    let rest = with_siren siren cs in if c.siren === siren then c ∷ rest else rest

abbrev pub only_one : {A : Type 0} → List A → Option A
only_one (a ∷ []) = some a
only_one _ = none

-- The candidate that is screened: the one with the number that was asked for, or else the only one.
unfoldable pub choose_candidate :
    Option Text → List EntityRegistryCandidate → Option EntityRegistryCandidate
unfolding with_siren
choose_candidate none candidates = only_one candidates
choose_candidate (some siren) candidates = elim (only_one (with_siren siren candidates)) [
  | some c ↦ some c
  | none ↦ only_one candidates
]

abbrev pub summaries : List EntityRegistryCandidate → List (Text × Text)
summaries [] = []
summaries (c ∷ cs) = (c.siren, c.legal_name) ∷ summaries cs

abbrev limitations_of : Screen → List Text
limitations_of (ambiguous n l) = baseline_limitation ∷ ambiguity_limitation ∷ []
limitations_of _ = baseline_limitation ∷ []

module _ (normalise : Text → Text) where
  unfoldable pub matches : Text → List EntitySanctionsEntry → List EntitySanctionsEntry
  unfolding ◌===◌
  matches name [] = []
  matches name (e ∷ es) =
      let rest = matches name es in if normalise e.name === name then e ∷ rest else rest

  unfoldable pub screen_name : EntityRegistryCandidate → List EntitySanctionsEntry → Screen
  screen_name c [] = found_clear c
  screen_name c (e ∷ es) = found_hit c (e ∷ es)

  unfoldable pub screen_candidates :
      EntityCheckRequest → List EntityRegistryCandidate → List EntitySanctionsEntry → Screen
  unfolding choose_candidate matches screen_name
  screen_candidates request candidates entries =
      elim (choose_candidate request.registration_number candidates) [
        | some c ↦ screen_name c (matches (normalise c.legal_name) entries)
        | none ↦
            if length candidates == 0
            then not_found
            else ambiguous (length candidates) (summaries (take 5 candidates))
      ]

  unfoldable pub assess_entity_check :
      Clock → Heap → (request_input assessment_input : Value) → Result EntityCheckResult
  unfolding parse_entity_check_request parse_assessment_input screen_candidates
  assess_entity_check clock h request_input assessment_input = do
    request ← parse_entity_check_request h request_input
    input ← parse_assessment_input clock h assessment_input
    let dataset = input.sanctions_dataset
    let screen = screen_candidates request input.registry_candidates dataset.entries
    ok (record {
      request = request;
      read_at = input.read_at;
      last_modified = dataset.last_modified;
      content_hash = dataset.content_hash;
      limitations = limitations_of screen;
      screen = screen;
    })
