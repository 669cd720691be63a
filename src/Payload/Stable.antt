-- ===== src/Payload/Stable.antt =====
-- What the shared readers of payloads give is read again as itself.
use mathlib.Core.Path.{subst}
use tool.Common.{ok, err, Error, Result, sym, ok-injective, ℕ, ◌≡◌, refl, ◌∙◌, arith, ap}
use tool.Common.Text.{Text}
use tool.Js.{Value, string, number, integral}
use tool.Common.Int.{pos}
use tool.Timestamp.{parse_text}
use tool.Patterns.{word_pattern, key_pattern, parse_string-stable}
use tool.Payload.{
  ExternalOperationKind, ats_create, ats_control_list, ats_issue, ats_transfer, ats_coupon,
  hedera_funding, kind_text, parse_operation_kind, parse_public_id, parse_idempotency_key,
  parse_version, parse_expiry,
}

module _ (e : Error) where
  -- Where the reading keeps its text.
  kept :
      {A : Type 0} (r : Result A) (t s : Text)
      → (elim r [ ok time ↦ ok t | err thrown ↦ err e ]) ≡ ok s
      → t ≡ s
  kept (ok time) t s h = ok-injective h
  kept (err thrown) t s h = absurd cc

  pub parse_operation_kind-kind_text :
      (k : ExternalOperationKind) → parse_operation_kind e (string (kind_text k)) ≡ ok k
  unfolding parse_operation_kind kind_text
  parse_operation_kind-kind_text ats_create = refl
  parse_operation_kind-kind_text ats_control_list = refl
  parse_operation_kind-kind_text ats_issue = refl
  parse_operation_kind-kind_text ats_transfer = refl
  parse_operation_kind-kind_text ats_coupon = refl
  parse_operation_kind-kind_text hedera_funding = refl

  pub parse_public_id-stable :
      (v : Value) (s : Text) → parse_public_id e v ≡ ok s → parse_public_id e (string s) ≡ ok s
  unfolding parse_public_id
  parse_public_id-stable v s h = parse_string-stable e (word_pattern 96) v s h

  pub parse_idempotency_key-stable :
      (v : Value) (s : Text)
      → parse_idempotency_key e v ≡ ok s
      → parse_idempotency_key e (string s) ≡ ok s
  unfolding parse_idempotency_key
  parse_idempotency_key-stable v s h = parse_string-stable e key_pattern v s h

  pub parse_version-stable :
      (v : Value) (n : ℕ)
      → parse_version e v ≡ ok n
      → parse_version e (number (integral (pos n))) ≡ ok n
  unfolding parse_version
  parse_version-stable (number (integral (pos m))) n h = ground arith
  parse_version-stable _ n h = absurd cc

  pub parse_expiry-stable :
      (v : Value) (s : Text) → parse_expiry e v ≡ ok s → parse_expiry e (string s) ≡ ok s
  unfolding parse_expiry
  parse_expiry-stable (string t) s h =
      let same = kept (parse_text t) t s h in
      subst (λ u. parse_expiry e (string u) ≡ ok u) same (h ∙ ap ok (sym same))
  parse_expiry-stable _ s h = absurd cc
