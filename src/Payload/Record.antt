-- ===== src/Payload/Record.antt =====
-- packages/core/src/agent-directory-record-candidate.ts: the record of a service in the directory.
-- `new URL` is the host's: the parameter `parse_href`, which gives the parts that the code looks at, or
-- `none` where it throws.
use tool.Common.{
  ℕ, Bool, false, not, ◌&&◌, ◌||◌, Option, none, some, List, [], ◌∷◌, length, ltb, ◌==◌,
  if◌then◌else◌, Result, ok, err, Error, type_error, ◌>>=◌, ◌>>◌, throw_if,
}
use tool.Common.Text.{Text, codes, ◌===◌, trim}
use tool.Js.{Value, string, Heap, snapshot_optional}
use tool.Arrays.{bounded_array}
use tool.Value.{parse_hedera_account_id}
use tool.Patterns.{prefixed_pattern}
use tool.Eligibility.{is_text}
use tool.Definition.{is_number}
use tool.Payload.{or_rejected, parse_public_id, parse_version, parse_expiry}

pub record Url : Type 0 where
  pub protocol : Text
  pub hostname : Text
  pub username : Text
  pub password : Text
  pub hash : Text
  pub href : Text

pub data DirectoryTier : Type 0 where
  quick standard : DirectoryTier

pub record AgentDirectoryRecordCandidate : Type 0 where
  pub schema_version : ℕ
  pub service_id : Text
  pub service_slug : Text
  pub offering_public_id : Text
  pub offering_version : ℕ
  pub capabilities : List Text
  pub x402_endpoint : Text
  pub web_url : Option Text
  pub payment_protocol : Text
  pub payment_network : Text
  pub asset : Text
  pub advertised_tiers : List DirectoryTier
  pub issuer_revenue_account : Text
  pub clearing_account : Text
  pub status : Text
  pub published_at : Text

abbrev pub required_fields : List Text
required_fields =
    codes "schemaVersion"
    ∷ codes "serviceId"
    ∷ codes "serviceSlug"
    ∷ codes "offeringPublicId"
    ∷ codes "offeringVersion"
    ∷ codes "capabilities"
    ∷ codes "x402Endpoint"
    ∷ codes "paymentProtocol"
    ∷ codes "paymentNetwork"
    ∷ codes "asset"
    ∷ codes "advertisedTiers"
    ∷ codes "issuerRevenueAccount"
    ∷ codes "clearingAccount"
    ∷ codes "status"
    ∷ codes "publishedAt"
    ∷ []

abbrev pub optional_field : Text
optional_field = codes "webUrl"

abbrev pub rejected : Error
rejected = type_error "invalid directory record candidate"

abbrev pub capability : Text
capability = codes "evm-contract-risk-signals"

unfoldable pub parse_service_slug : Value → Result Text
unfolding prefixed_pattern ◌===◌
parse_service_slug (string value) =
    if (value === codes "riskscan") || prefixed_pattern (codes "tool-") 32 value
    then ok value
    else err rejected
parse_service_slug _ = err rejected

unfoldable pub parse_account : Value → Result Text
unfolding parse_hedera_account_id
parse_account (string value) =
    if ltb 96 (length value)
    then err rejected
    else or_rejected rejected (parse_hedera_account_id (string value))
parse_account _ = err rejected

unfoldable pub contains : Text → ℕ → Bool
contains [] c = false
contains (d ∷ s) c = (d == c) || contains s c

abbrev pub is_url_text : Text → Bool
is_url_text value =
    not (length value == 0)
    && not (ltb 2048 (length value))
    && (trim value === value)
    && not (contains value b'#')

abbrev pub is_plain_https : Url → Bool
is_plain_https url =
    (url.protocol === codes "https:")
    && not (length url.hostname == 0)
    && (length url.username == 0)
    && (length url.password == 0)
    && (length url.hash == 0)

unfoldable pub parse_tiers : List Value → Result (List DirectoryTier)
unfolding ◌===◌
parse_tiers (v ∷ []) =
    if is_text (codes "quick") v
    then ok (quick ∷ [])
    else if is_text (codes "standard") v
    then ok (standard ∷ [])
    else err rejected
parse_tiers (v ∷ w ∷ []) =
    if is_text (codes "quick") v && is_text (codes "standard") w
    then ok (quick ∷ standard ∷ [])
    else err rejected
parse_tiers _ = err rejected

abbrev pub is_capability : List Value → Bool
is_capability (v ∷ vs) = is_text capability v
is_capability [] = false

module _ (parse_href : Text → Option Url) where
  unfoldable pub parse_url : Value → Result Text
  unfolding contains ◌===◌ trim
  parse_url (string value) =
      if is_url_text value
      then (elim (parse_href value) [
        | none ↦ err rejected
        | some url ↦ if is_plain_https url then ok url.href else err rejected
      ])
      else err rejected
  parse_url _ = err rejected

  unfoldable pub parse_web_url : List Value → Result (Option Text)
  unfolding parse_url
  parse_web_url [] = ok none
  parse_web_url (v ∷ vs) = do url ← parse_url v; ok (some url)

  unfoldable pub record_of : Heap → List Value → Result AgentDirectoryRecordCandidate
  unfolding bounded_array parse_version parse_service_slug parse_public_id parse_url parse_tiers
      parse_account parse_expiry parse_web_url ◌===◌
  record_of h
        (schema ∷ service ∷ slug ∷ offering ∷ version ∷ capabilities ∷ endpoint ∷ protocol ∷ network
          ∷ asset ∷ tiers ∷ revenue ∷ clearing ∷ status ∷ published ∷ web) =
      do
        capability_values ← or_rejected rejected (bounded_array 1 1 h capabilities)
        tier_values ← or_rejected rejected (bounded_array 1 2 h tiers)
        throw_if (not (is_number 1 schema)) rejected
        offering_version ← parse_version rejected version
        throw_if
            (not (
              is_capability capability_values
              && is_text (codes "x402") protocol
              && is_text (codes "hedera-testnet") network
              && is_text (codes "HBAR") asset
              && is_text (codes "active") status))
            rejected
        service_slug ← parse_service_slug slug
        service_id ← parse_public_id rejected service
        offering_public_id ← parse_public_id rejected offering
        x402_endpoint ← parse_url endpoint
        advertised_tiers ← parse_tiers tier_values
        issuer_revenue_account ← parse_account revenue
        clearing_account ← parse_account clearing
        published_at ← parse_expiry rejected published
        web_url ← parse_web_url web
        ok (record {
          schema_version = 1;
          service_id = service_id;
          service_slug = service_slug;
          offering_public_id = offering_public_id;
          offering_version = offering_version;
          capabilities = capability ∷ [];
          x402_endpoint = x402_endpoint;
          web_url = web_url;
          payment_protocol = codes "x402";
          payment_network = codes "hedera-testnet";
          asset = codes "HBAR";
          advertised_tiers = advertised_tiers;
          issuer_revenue_account = issuer_revenue_account;
          clearing_account = clearing_account;
          status = codes "active";
          published_at = published_at;
        })
  record_of h _ = err rejected

  unfoldable pub parse_agent_directory_record_candidate :
      Heap → Value → Result AgentDirectoryRecordCandidate
  unfolding snapshot_optional record_of
  parse_agent_directory_record_candidate h input =
      elim (snapshot_optional h input required_fields optional_field) [
        | none ↦ err rejected
        | some values ↦ record_of h values
      ]
