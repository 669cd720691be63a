-- ===== src/Entity/Tests.antt =====
-- Two companies, one of which is on the list; names are normalised by dropping the points in them.
use tool.Common.{List, [], ◌∷◌, some, All, ◌==◌, if◌then◌else◌, ◌≡◌, ◌≢◌, refl}
use tool.Common.Text.{Text, codes}
use tool.Entity.Read.{EntityCheckRequest, EntityRegistryCandidate, EntitySanctionsEntry, active}
use tool.Entity.{found_clear, found_hit, screen_candidates}
use tool.Entity.Screening.{Screened, screen_candidates-clear_iff}

abbrev normalise : Text → Text
normalise [] = []
normalise (c ∷ s) = let rest = normalise s in if c == b'.' then rest else c ∷ rest

abbrev company : Text → Text → EntityRegistryCandidate
company siren name = record {
  siren = siren;
  legal_name = name;
  administrative_status = active;
  incorporation_date = codes "2001-02-03";
  registered_address = [];
  officer_count = 1;
  registry_updated_at = codes "2026-01-01T00:00:00Z";
}

abbrev request : EntityCheckRequest
request = record {
  request_ref = codes "r1";
  jurisdiction = codes "FR";
  query = codes "ACME";
  registration_number = some (codes "123456789");
}

abbrev candidates : List EntityRegistryCandidate
candidates =
    company (codes "123456789") (codes "ACME") ∷ company (codes "987654321") (codes "ACME SA") ∷ []

abbrev entries : List EntitySanctionsEntry
entries =
    record {
      entry_id = codes "1";
      name = codes "ACME S.A.";
      entry_type = codes "entity";
      programs = [];
    }
    ∷ []

is_clear :
    screen_candidates normalise request candidates entries
    ≡ found_clear (company (codes "123456789") (codes "ACME"))
unfolding screen_candidates
is_clear = refl

-- The other company is on the list.
is_hit :
    screen_candidates normalise
      (record request { registration_number = some (codes "987654321") })
      candidates
      entries
    ≡ found_hit (company (codes "987654321") (codes "ACME SA")) entries
unfolding screen_candidates
is_hit = refl

screen_candidates-clear_iff_example :
    Screened (some (codes "123456789")) candidates (company (codes "123456789") (codes "ACME"))
    × All (λ e. normalise e.name ≢ normalise (codes "ACME")) entries
screen_candidates-clear_iff_example =
    (screen_candidates-clear_iff normalise request candidates entries
        (company (codes "123456789") (codes "ACME"))).0
      is_clear
