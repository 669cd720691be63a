-- ===== src/Settlement/Tests.antt =====
-- An attempt that is recorded twice.
use tool.Common.{ℕ, some, [], ◌∷◌, ok, Result, ◌≡◌, ◌≢◌, refl}
use tool.Common.Int.{pos}
use tool.Common.Text.{Text, codes}
use tool.Js.{string, object_literal}
use tool.Value.Decimal.{decimal}
use tool.Settlement.Attempts.{
  Database, Arguments, Recorded, created, replayed, record_initial_risk_scan_settlement_attempt,
}
use tool.Settlement.Replay.{Outcome, record_initial-Outcome}

abbrev identifier : ℕ → Text
identifier n = b'a' ∷ decimal n

identifier_nonempty : (n : ℕ) → identifier n ≢ []
identifier_nonempty n h = cc

-- One request, which waits for its payment.
abbrev database : Database
database = record {
  requests = λ id. some (
      object_literal (
        (codes "publicId", string (codes "scan-1"))
        ∷ (codes "state", string (codes "payment_required"))
        ∷ []));
  attempts = [];
}

abbrev arguments : Arguments
arguments = record {
  request_id = codes "r1";
  idempotency_key_hash = codes "e3b0c44298fc1c149afbf4c8996fb92427ae41e4649b934ca495991b7852b855";
  network = codes "eip155:296";
  candidate_settlement_ref = codes "settlement-1";
  created_at = pos 1767225600000;
  updated_at = pos 1767225600000;
}

abbrev first : Database × Result Recorded
first = record_initial_risk_scan_settlement_attempt identifier database arguments

is_created : first.1 ≡ ok (created (codes "a0"))
unfolding record_initial_risk_scan_settlement_attempt decimal
is_created = refl

is_replayed :
    (record_initial_risk_scan_settlement_attempt identifier first.0 arguments).1
    ≡ ok (replayed (codes "a0"))
unfolding record_initial_risk_scan_settlement_attempt decimal
is_replayed = refl

record_initial-Outcome_example : Outcome identifier database arguments first
record_initial-Outcome_example =
    record_initial-Outcome identifier identifier_nonempty database arguments
