-- ===== src/Ingress/Tests.antt =====
-- An envelope, and the greatest timestamp.
use tool.Common.{◌≡◌, ◌↔◌, ◌≤◌, ℕ, refl, ok, [], ◌∷◌}
use tool.Common.Int.{pos}
use tool.Common.Text.{Text, codes}
use tool.Js.{string, object, Heap, object_literal}
use tool.Value.Decimal.{decimal}
use tool.Ingress.{
  IngressEnvelope, parse_timestamp, parse_ingress_envelope, signing_input, replay_identity, post,
  commands_path, maximum_timestamp,
}
use tool.Ingress.Bounds.{parse_timestamp_iff}
use tool.Ingress.Replay.{parse_ingress_envelope-binds}

abbrev nonce : Text
nonce = codes "AAAAAAAAAAAAAAAAAAAAAA"

abbrev digest : Text
digest = codes "e3b0c44298fc1c149afbf4c8996fb92427ae41e4649b934ca495991b7852b855"

abbrev signature : Text
signature = codes "AAAAAAAAAAAAAAAAAAAAAAAAAAAAAAAAAAAAAAAAAAA"

abbrev heap : Heap
heap r = object_literal (
    (codes "keyId", string (codes "agent-1"))
    ∷ (codes "timestampUnixSeconds", string (codes "1767225600"))
    ∷ (codes "requestNonce", string nonce)
    ∷ (codes "bodySha256", string digest)
    ∷ (codes "signature", string signature)
    ∷ [])

abbrev envelope : IngressEnvelope
envelope = record {
  key_id = codes "agent-1";
  timestamp_unix_seconds = pos 1767225600;
  request_nonce = nonce;
  body_sha256 = digest;
  signature = signature;
  method = post;
  path = commands_path;
  signing_input = signing_input post commands_path (codes "1767225600") nonce digest;
  replay_identity = replay_identity (codes "agent-1") nonce;
}

is_read : parse_ingress_envelope heap (object 0) ≡ ok envelope
unfolding parse_ingress_envelope object_literal
is_read = refl

parse_ingress_envelope-binds_example :
    ((envelope.replay_identity ≡ envelope.replay_identity)
      ↔ ((envelope.key_id ≡ envelope.key_id) × (envelope.request_nonce ≡ envelope.request_nonce)))
    × ((envelope.signing_input ≡ envelope.signing_input) ↔ (
        (envelope.timestamp_unix_seconds ≡ envelope.timestamp_unix_seconds)
        × (envelope.request_nonce ≡ envelope.request_nonce)
        × (envelope.body_sha256 ≡ envelope.body_sha256)))
parse_ingress_envelope-binds_example =
    parse_ingress_envelope-binds heap heap (object 0) (object 0) envelope envelope is_read is_read

greatest : parse_timestamp (string maximum_timestamp) ≡ ok (pos 9223372036854775807)
unfolding parse_timestamp
greatest = refl

parse_timestamp_iff_example :
    (n : ℕ) × (n ≤ 9223372036854775807)
    × (maximum_timestamp ≡ decimal n)
    × (pos 9223372036854775807 ≡ pos n)
parse_timestamp_iff_example =
    (parse_timestamp_iff maximum_timestamp (pos 9223372036854775807)).0 greatest
