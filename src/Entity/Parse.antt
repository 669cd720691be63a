-- ===== src/Entity/Parse.antt =====
-- The parts of the input of packages/core/src/entity-check.ts, each read by its fields.
use tool.Common.{Option, none, some, List, [], ◌∷◌, if◌then◌else◌, Result, ok, err, ◌>>=◌}
use tool.Common.Text.{Text, codes}
use tool.Js.{Value, Heap}
use tool.Patterns.{hexadecimal_pattern, parse_string}
use tool.Eligibility.{is_text}
use tool.Entity.Dates.{
  Clock, rejected, parse_calendar_date, parse_iso_timestamp, parse_last_modified,
}
use tool.Entity.Read.{
  EntityCheckRequest, EntityRegistryCandidate, EntitySanctionsEntry, EntitySanctionsDataset,
  EntityCheckAssessmentInput, capture_record, capture_dense_array, required_string,
  required_nonblank_string, required_trimmed_nonblank_string, parse_siren, parse_status,
  parse_count, map_all,
}

abbrev candidate_fields : List Text
candidate_fields =
    codes "siren"
    ∷ codes "legalName"
    ∷ codes "administrativeStatus"
    ∷ codes "incorporationDate"
    ∷ codes "registeredAddress"
    ∷ codes "officerCount"
    ∷ codes "registryUpdatedAt"
    ∷ []

abbrev registry_source_fields : List Text
registry_source_fields = codes "source" ∷ codes "readAt" ∷ []

abbrev sanctions_dataset_fields : List Text
sanctions_dataset_fields =
    codes "source" ∷ codes "lastModified" ∷ codes "contentHash" ∷ codes "entries" ∷ []

abbrev sanctions_entry_fields : List Text
sanctions_entry_fields = codes "entryId" ∷ codes "name" ∷ codes "entryType" ∷ codes "programs" ∷ []

abbrev assessment_fields : List Text
assessment_fields =
    codes "registryCandidates" ∷ codes "registrySource" ∷ codes "sanctionsDataset" ∷ []

abbrev request_fields : List Text
request_fields = codes "requestRef" ∷ codes "jurisdiction" ∷ codes "query" ∷ []

abbrev request_optional_fields : List Text
request_optional_fields = codes "registrationNumber" ∷ []

unfoldable pub entry_of : Heap → List Value → Result EntitySanctionsEntry
unfolding capture_dense_array required_string required_nonblank_string map_all
entry_of h (raw_id ∷ raw_name ∷ raw_type ∷ raw_programs ∷ []) = do
  items ← capture_dense_array h raw_programs
  programs ← map_all required_string items
  entry_id ← required_nonblank_string raw_id
  name ← required_nonblank_string raw_name
  entry_type ← required_string raw_type
  ok (record { entry_id = entry_id; name = name; entry_type = entry_type; programs = programs })
entry_of h _ = err rejected

unfoldable pub parse_sanctions_entry : Heap → Value → Result EntitySanctionsEntry
unfolding capture_record entry_of
parse_sanctions_entry h v = do
  values ← capture_record h v sanctions_entry_fields []
  entry_of h values

-- The request, with the registration number where it is there.
unfoldable pub request_of : List Value → Result EntityCheckRequest
unfolding required_trimmed_nonblank_string parse_siren
request_of (raw_ref ∷ raw_jurisdiction ∷ raw_query ∷ optional) =
    if is_text (codes "FR") raw_jurisdiction
    then (do
      request_ref ← required_trimmed_nonblank_string raw_ref 96
      query ← required_trimmed_nonblank_string raw_query 160
      registration_number ← number_of optional
      ok (record {
        request_ref = request_ref;
        jurisdiction = codes "FR";
        query = query;
        registration_number = registration_number;
      }))
    else err rejected
  where
    number_of : List Value → Result (Option Text)
    number_of [] = ok none
    number_of (v ∷ vs) = do siren ← parse_siren v; ok (some siren)
request_of _ = err rejected

unfoldable pub parse_entity_check_request : Heap → Value → Result EntityCheckRequest
unfolding capture_record request_of
parse_entity_check_request h input = do
  values ← capture_record h input request_fields request_optional_fields
  request_of values

module _ (clock : Clock) where
  unfoldable pub candidate_of : List Value → Result EntityRegistryCandidate
  unfolding parse_siren required_nonblank_string parse_status parse_calendar_date required_string
      parse_count parse_iso_timestamp
  candidate_of
        (raw_siren ∷ raw_name ∷ raw_status ∷ raw_date ∷ raw_address ∷ raw_count ∷ raw_updated
          ∷ []) =
      do
        siren ← parse_siren raw_siren
        legal_name ← required_nonblank_string raw_name
        status ← parse_status raw_status
        date ← parse_calendar_date raw_date
        address ← required_string raw_address
        count ← parse_count raw_count
        updated ← parse_iso_timestamp clock raw_updated
        ok (record {
          siren = siren;
          legal_name = legal_name;
          administrative_status = status;
          incorporation_date = date;
          registered_address = address;
          officer_count = count;
          registry_updated_at = updated;
        })
  candidate_of _ = err rejected

  unfoldable pub parse_candidate : Heap → Value → Result EntityRegistryCandidate
  unfolding capture_record candidate_of
  parse_candidate h v = do values ← capture_record h v candidate_fields []; candidate_of values

  -- When the registry was read.
  unfoldable pub registry_source_of : List Value → Result Text
  unfolding parse_iso_timestamp
  registry_source_of (raw_source ∷ raw_read_at ∷ []) =
      if is_text (codes "FR_RECHERCHE_ENTREPRISES") raw_source
      then parse_iso_timestamp clock raw_read_at
      else err rejected
  registry_source_of _ = err rejected

  unfoldable pub parse_registry_source : Heap → Value → Result Text
  unfolding capture_record registry_source_of
  parse_registry_source h v = do
    values ← capture_record h v registry_source_fields []
    registry_source_of values

  -- When the list was changed last, its hash, and its entries.
  unfoldable pub dataset_of : Heap → List Value → Result EntitySanctionsDataset
  unfolding capture_dense_array parse_sanctions_entry map_all parse_string hexadecimal_pattern
      parse_last_modified
  dataset_of h (raw_source ∷ raw_modified ∷ raw_hash ∷ raw_entries ∷ []) =
      if is_text (codes "OFAC_SDN") raw_source
      then (do
        items ← capture_dense_array h raw_entries
        entries ← map_all (parse_sanctions_entry h) items
        hash ← parse_string rejected (hexadecimal_pattern 64) raw_hash
        modified ← parse_last_modified clock raw_modified
        ok (record { last_modified = modified; content_hash = hash; entries = entries }))
      else err rejected
  dataset_of h _ = err rejected

  unfoldable pub parse_sanctions_dataset : Heap → Value → Result EntitySanctionsDataset
  unfolding capture_record dataset_of
  parse_sanctions_dataset h v = do
    values ← capture_record h v sanctions_dataset_fields []
    dataset_of h values

  unfoldable pub assessment_of : Heap → List Value → Result EntityCheckAssessmentInput
  unfolding capture_dense_array map_all parse_candidate parse_registry_source
      parse_sanctions_dataset
  assessment_of h (raw_candidates ∷ raw_source ∷ raw_dataset ∷ []) = do
    items ← capture_dense_array h raw_candidates
    candidates ← map_all (parse_candidate h) items
    read_at ← parse_registry_source h raw_source
    dataset ← parse_sanctions_dataset h raw_dataset
    ok (record { registry_candidates = candidates; read_at = read_at; sanctions_dataset = dataset })
  assessment_of h _ = err rejected

  unfoldable pub parse_assessment_input : Heap → Value → Result EntityCheckAssessmentInput
  unfolding capture_record assessment_of
  parse_assessment_input h v = do
    values ← capture_record h v assessment_fields []
    assessment_of h values
