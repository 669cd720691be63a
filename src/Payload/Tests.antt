-- ===== src/Payload/Tests.antt =====
-- Payloads, and what the program projects them to.
use tool.Common.{ok, none, some, [], ◌∷◌, ◌≡◌, ◌≢◌, ◌↔◌, refl, Option, true}
use tool.Common.Int.{pos}
use tool.Common.Text.{Text, codes}
use tool.Js.{object, Heap, object_literal}
use tool.Patterns.{evm_address_pattern}
use tool.Definition.Tests.{definition}
use tool.Payload.{ats_create}
use tool.Payload.Attach.{AttachCandidatePayload, projection, parse_attach_candidate_payload}
use tool.Payload.Attach.RoundTrip.{
  parse_attach_candidate_payload-projection, parse_attach_candidate_payload_sound,
}
use tool.Payload.Record.{Url, quick, standard, capability}
use tool.Payload.Publish.{DirectoryPublishPayload, projection_heap, parse_directory_publish_payload}
use tool.Payload.Publish.Sound.{parse_directory_publish_payload-matches}
use tool.Payload.Create
use tool.Payload.Create.{OfferingCreatePayload, parse_offering_create_payload}
use tool.Payload.Create.Sound.{
  IsOfferingCreatePayload, parse_offering_create_payload-IsOfferingCreatePayload,
}

abbrev key : Text
key = codes "AAAAAAAAAAAAAAAAAAAAAA"

abbrev instant : Text
instant = codes "2026-06-30T12:00:00.000Z"

abbrev address : Text
address = codes "0x00000000000000000000000000000000000004d2"

abbrev attached : AttachCandidatePayload
attached = record {
  schema_version = 1;
  attempt_public_id = codes "BBBBBBBBBBBBBBBBBBBBBA";
  operation_kind = ats_create;
  candidate_transaction_id = codes "0.0.1234-1767225600-000000001";
  candidate_evm_address = some address;
  idempotency_key = key;
  expires_at = instant;
}

abbrev attached_heap : Heap
attached_heap r = object_literal (projection attached)

attached_is_read : parse_attach_candidate_payload attached_heap (object 0) ≡ ok attached
unfolding parse_attach_candidate_payload object_literal projection
attached_is_read = refl

parse_attach_candidate_payload-projection_example :
    parse_attach_candidate_payload attached_heap (object 0) ≡ ok attached
parse_attach_candidate_payload-projection_example =
    parse_attach_candidate_payload-projection attached_heap (object 0) attached attached_is_read

parse_attach_candidate_payload_sound_example :
    (attached.attempt_public_id ≢ attached.idempotency_key)
    × ((attached.operation_kind ≡ ats_create)
        ↔ ((t : Text) × (attached.candidate_evm_address ≡ some t)))
    × ((t : Text) → attached.candidate_evm_address ≡ some t → evm_address_pattern t ≡ true)
parse_attach_candidate_payload_sound_example =
    parse_attach_candidate_payload_sound attached_heap (object 0) attached attached_is_read

-- A host whose `new URL` takes every text as one of https.
abbrev parse_href : Text → Option Url
parse_href t = some (record {
  protocol = codes "https:";
  hostname = codes "tool402.example";
  username = [];
  password = [];
  hash = [];
  href = t;
})

abbrev published : DirectoryPublishPayload
published = record {
  schema_version = 1;
  offering_public_id = codes "offering_1";
  offering_version = 2;
  directory_version = 1;
  candidate = record {
    schema_version = 1;
    service_id = codes "riskscan";
    service_slug = codes "riskscan";
    offering_public_id = codes "offering_1";
    offering_version = 2;
    capabilities = capability ∷ [];
    x402_endpoint = codes "https://tool402.example/api";
    web_url = none;
    payment_protocol = codes "x402";
    payment_network = codes "hedera-testnet";
    asset = codes "HBAR";
    advertised_tiers = quick ∷ standard ∷ [];
    issuer_revenue_account = codes "0.0.1001";
    clearing_account = codes "0.0.1002";
    status = codes "active";
    published_at = instant;
  };
  idempotency_key = key;
  expires_at = instant;
}

published_is_read :
    parse_directory_publish_payload parse_href (projection_heap published) (object 0) ≡ ok published
unfolding parse_directory_publish_payload projection_heap
published_is_read = refl

parse_directory_publish_payload-matches_example :
    ((published.candidate).offering_public_id ≡ published.offering_public_id)
    × ((published.candidate).offering_version ≡ published.offering_version)
parse_directory_publish_payload-matches_example =
    parse_directory_publish_payload-matches parse_href (projection_heap published) (object 0)
      published published_is_read

abbrev created : OfferingCreatePayload
created = record {
  schema_version = 1;
  offering_public_id = codes "offering_1";
  offering_version = 1;
  subject_public_id = codes "tool_1";
  definition = definition;
  narrative = record {
    title = codes "Contract risk signals";
    customer_problem = codes "Agents call contracts that nobody has looked at.";
    customer_use_cases = codes "Check before a call" ∷ [];
    use_of_funds = codes "Servers" ∷ [];
    risks = codes "No demand" ∷ codes "Outages" ∷ [];
  };
  advertised_quick_price_tinybars = pos 100;
  advertised_standard_price_tinybars = pos 10000000;
  idempotency_key = key;
  expires_at = instant;
}

created_is_read :
    parse_offering_create_payload (Create.projection_heap created) (object 0) ≡ ok created
unfolding parse_offering_create_payload Create.projection_heap tool.Value.parse_note_units
    tool.Value.parse_basis_points tool.Economics.check_terms
created_is_read = refl

parse_offering_create_payload-IsOfferingCreatePayload_example : IsOfferingCreatePayload created
parse_offering_create_payload-IsOfferingCreatePayload_example =
    parse_offering_create_payload-IsOfferingCreatePayload (Create.projection_heap created)
      (object 0) created created_is_read
