-- ===== src/Settlement.antt =====
-- packages/backend/src/risk-scan-settlement-attempt-admission.ts: which settlement attempts of a risk scan
-- are admitted. Settlement/Attempts is the mutation that records them. A throw of the input's own code is
-- taken for the rejection.
pub mod Attempts
pub mod Replay
mod Tests
use tool.Common.{
  ℕ, Bool, true, false, not, ◌&&◌, ◌||◌, Option, none, some, List, [], ◌∷◌, length, take, drop, all,
  leb, ◌==◌, if◌then◌else◌, Result, ok, err, Error, type_error, ◌>>=◌, ◌>>◌, throw_if,
}
use tool.Common.Int.{ℤ, pos, ltb_ℤ, eqb_ℤ}
use tool.Common.Text.{Text, codes, ◌===◌}
use tool.Js.{Value, bigint, Heap, snapshot_exact_record}
use tool.Value.{canonical_integer}
use tool.Patterns.{is_word, hexadecimal_pattern, parse_string}

-- The operation and the state are constants.
pub record RiskScanSettlementAttemptCandidateDocument : Type 0 where
  pub idempotency_key_hash : Text
  pub network : Text
  pub candidate_settlement_ref : Text
  pub next_reconciliation_at : ℤ
  pub created_at : ℤ
  pub updated_at : ℤ

abbrev pub expected_input_keys : List Text
expected_input_keys =
    codes "idempotencyKeyHash"
    ∷ codes "network"
    ∷ codes "candidateSettlementRef"
    ∷ codes "createdAt"
    ∷ codes "updatedAt"
    ∷ []

abbrev pub rejected : Error
rejected = type_error "Invalid RiskScan settlement-attempt admission input"

-- `^eip155:[1-9]\d*$`
unfoldable pub network_pattern : Text → Bool
unfolding canonical_integer ◌===◌
network_pattern s =
    (take 7 s === codes "eip155:") && canonical_integer (drop 7 s) && not (drop 7 s === codes "0")

abbrev pub is_reference_unit : ℕ → Bool
is_reference_unit c = is_word c || c == b':'

-- `^[A-Za-z0-9:_-]{1,160}$`
unfoldable pub candidate_settlement_ref_pattern : Text → Bool
candidate_settlement_ref_pattern s =
    all is_reference_unit s && leb 1 (length s) && leb (length s) 160

unfoldable pub read_timestamp : Value → Result ℤ
read_timestamp (bigint z) =
    if ltb_ℤ z (pos 0) || ltb_ℤ (pos 9223372036854775807) z then err rejected else ok z
read_timestamp _ = err rejected

unfoldable pub candidate_of : List Value → Result RiskScanSettlementAttemptCandidateDocument
unfolding parse_string hexadecimal_pattern network_pattern candidate_settlement_ref_pattern
    read_timestamp
candidate_of (raw_hash ∷ raw_network ∷ raw_ref ∷ raw_created ∷ raw_updated ∷ []) = do
  idempotency_key_hash ← parse_string rejected (hexadecimal_pattern 64) raw_hash
  network ← parse_string rejected network_pattern raw_network
  candidate_settlement_ref ← parse_string rejected candidate_settlement_ref_pattern raw_ref
  created_at ← read_timestamp raw_created
  updated_at ← read_timestamp raw_updated
  throw_if (not (eqb_ℤ created_at updated_at)) rejected
  ok (record {
    idempotency_key_hash = idempotency_key_hash;
    network = network;
    candidate_settlement_ref = candidate_settlement_ref;
    next_reconciliation_at = created_at;
    created_at = created_at;
    updated_at = updated_at;
  })
candidate_of _ = err rejected

unfoldable pub admit_risk_scan_settlement_attempt :
    Heap → Value → Result RiskScanSettlementAttemptCandidateDocument
unfolding snapshot_exact_record candidate_of
admit_risk_scan_settlement_attempt h input =
    elim (snapshot_exact_record h input expected_input_keys) [
      | none ↦ err rejected
      | some values ↦ candidate_of values
    ]
