-- ===== src/Ingress.antt =====
-- packages/core/src/ingress-envelope.ts: the envelope of a signed command.
pub mod Bounds
pub mod Replay
mod Tests
use tool.Common.{
  ℕ, Bool, true, false, not, ◌&&◌, ◌||◌, Option, none, some, List, [], ◌∷◌, ◌++◌, length, ltb, ◌==◌,
  if◌then◌else◌, Result, ok, err, Error, type_error, ◌>>=◌,
}
use tool.Common.Int.{ℤ, pos}
use tool.Common.Text.{Text, codes}
use tool.Js.{Value, string, Heap, snapshot_exact_record}
use tool.Value.{canonical_integer, big_int}
use tool.Patterns.{word_pattern, key_pattern, hexadecimal_pattern, encoded_pattern, parse_string}
use tool.Requirements.Captured.{precedes}

pub record IngressEnvelope : Type 0 where
  pub key_id : Text
  pub timestamp_unix_seconds : ℤ
  pub request_nonce : Text
  pub body_sha256 : Text
  pub signature : Text
  pub method : Text
  pub path : Text
  pub signing_input : Text
  pub replay_identity : Text

abbrev pub ingress_fields : List Text
ingress_fields =
    codes "keyId"
    ∷ codes "timestampUnixSeconds"
    ∷ codes "requestNonce"
    ∷ codes "bodySha256"
    ∷ codes "signature"
    ∷ []

abbrev pub rejected : Error
rejected = type_error "invalid ingress envelope"

abbrev pub maximum_timestamp : Text
maximum_timestamp = codes "9223372036854775807"

-- `value > maximumTimestamp` compares code units.
unfoldable pub is_timestamp : Text → Bool
unfolding canonical_integer precedes
is_timestamp s =
    canonical_integer s
    && not (ltb (length maximum_timestamp) (length s))
    && not (length s == length maximum_timestamp && precedes maximum_timestamp s)

unfoldable pub parse_timestamp : Value → Result ℤ
unfolding is_timestamp big_int
parse_timestamp (string s) = if is_timestamp s then ok (pos (big_int 0 s)) else err rejected
parse_timestamp _ = err rejected

abbrev pub text_of : Value → Text
text_of (string s) = s
text_of _ = []

abbrev pub newline : Text
newline = b'\n' ∷ []

unfoldable pub signing_input : (method path timestamp nonce digest : Text) → Text
signing_input method path timestamp nonce digest =
    method
    ++ (newline
        ++ (path ++ (newline ++ (timestamp ++ (newline ++ (nonce ++ (newline ++ digest)))))))

unfoldable pub replay_identity : (key_id nonce : Text) → Text
replay_identity key_id nonce = key_id ++ ((b':' ∷ []) ++ nonce)

abbrev pub post : Text
post = codes "POST"

abbrev pub commands_path : Text
commands_path = codes "/internal/commands"

-- The pattern of a signature ends in one of 16 characters: 32 bytes in base64url.
abbrev pub signature_end : Text
signature_end = codes "AEIMQUYcgkosw048"

unfoldable pub parse_values : List Value → Result IngressEnvelope
unfolding parse_string word_pattern key_pattern hexadecimal_pattern encoded_pattern parse_timestamp
    signing_input replay_identity
parse_values (raw_key ∷ raw_timestamp ∷ raw_nonce ∷ raw_digest ∷ raw_signature ∷ []) = do
  key_id ← parse_string rejected (word_pattern 64) raw_key
  timestamp ← parse_timestamp raw_timestamp
  nonce ← parse_string rejected key_pattern raw_nonce
  digest ← parse_string rejected (hexadecimal_pattern 64) raw_digest
  signature ← parse_string rejected (encoded_pattern 42 signature_end) raw_signature
  ok (record {
    key_id = key_id;
    timestamp_unix_seconds = timestamp;
    request_nonce = nonce;
    body_sha256 = digest;
    signature = signature;
    method = post;
    path = commands_path;
    signing_input = signing_input post commands_path (text_of raw_timestamp) nonce digest;
    replay_identity = replay_identity key_id nonce;
  })
parse_values _ = err rejected

unfoldable pub parse_ingress_envelope : Heap → Value → Result IngressEnvelope
unfolding snapshot_exact_record parse_values
parse_ingress_envelope h input = elim (snapshot_exact_record h input ingress_fields) [
  | none ↦ err rejected
  | some values ↦ parse_values values
]
