-- ===== src/Payload.antt =====
-- The payloads of commands. packages/core/src/external-prepare-payload.ts,
-- packages/core/src/attach-candidate-payload.ts, packages/core/src/directory-publish-payload.ts and
-- packages/core/src/offering-create-payload.ts repeat these readers, each with its own error, which is
-- the parameter `rejected`.
pub mod Prepare
pub mod Attach
pub mod Record
pub mod Publish
pub mod Narrative
pub mod Create
mod Tests
pub mod Stable
use tool.Common.{
  ℕ, Bool, true, false, not, ◌&&◌, ◌||◌, Option, none, some, List, [], ◌∷◌, leb, ltb, if◌then◌else◌,
  Result, ok, err, Error, ◌>>=◌,
}
use tool.Common.Int.{ℤ, pos}
use tool.Common.Text.{Text, codes, ◌===◌}
use tool.Js.{Number, integral, Value, string, number, Heap, max_safe_integer}
use tool.Timestamp.{parse_text}
use tool.Patterns.{word_pattern, key_pattern, parse_string}

pub data ExternalOperationKind : Type 0 where
  ats_create ats_control_list ats_issue ats_transfer ats_coupon hedera_funding :
      ExternalOperationKind

-- The text of a kind, as the code keeps it.
unfoldable pub kind_text : ExternalOperationKind → Text
kind_text ats_create = codes "ATS_CREATE"
kind_text ats_control_list = codes "ATS_CONTROL_LIST"
kind_text ats_issue = codes "ATS_ISSUE"
kind_text ats_transfer = codes "ATS_TRANSFER"
kind_text ats_coupon = codes "ATS_COUPON"
kind_text hedera_funding = codes "HEDERA_FUNDING"

module _ (rejected : Error) where
  abbrev pub or_rejected {ℓ} : {A : Type ℓ} → Option A → Result A
  or_rejected none = err rejected
  or_rejected (some a) = ok a

  unfoldable pub parse_operation_kind : Value → Result ExternalOperationKind
  unfolding ◌===◌
  parse_operation_kind (string s) =
      if s === codes "ATS_CREATE"
      then ok ats_create
      else if s === codes "ATS_CONTROL_LIST"
      then ok ats_control_list
      else if s === codes "ATS_ISSUE"
      then ok ats_issue
      else if s === codes "ATS_TRANSFER"
      then ok ats_transfer
      else if s === codes "ATS_COUPON"
      then ok ats_coupon
      else if s === codes "HEDERA_FUNDING"
      then ok hedera_funding
      else err rejected
  parse_operation_kind _ = err rejected

  unfoldable pub parse_public_id : Value → Result Text
  unfolding parse_string word_pattern
  parse_public_id = parse_string rejected (word_pattern 96)

  unfoldable pub parse_idempotency_key : Value → Result Text
  unfolding parse_string key_pattern
  parse_idempotency_key = parse_string rejected key_pattern

  -- A positive safe integer.
  unfoldable pub parse_version : Value → Result ℕ
  parse_version (number (integral (pos n))) =
      if leb 1 n && leb n max_safe_integer then ok n else err rejected
  parse_version _ = err rejected

  -- The pattern, and the round trip by `Date`.
  unfoldable pub parse_expiry : Value → Result Text
  unfolding parse_text
  parse_expiry (string s) = elim (parse_text s) [ ok time ↦ ok s | err e ↦ err rejected ]
  parse_expiry _ = err rejected
