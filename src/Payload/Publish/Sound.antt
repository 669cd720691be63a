-- ===== src/Payload/Publish/Sound.antt =====
-- What holds of a payload that packages/core/src/directory-publish-payload.ts read.
use mathlib.Core.Path.{subst}
use tool.Common.{
  ℕ, false, not, ◌||◌, Option, List, [], ◌∷◌, ok, >>=-eq-ok, elim-eq-ok, throw_if, throw_if-eq-ok,
  ok-injective, ◌==◌, ◌≡◌, arith,
}
use tool.Common.Text.{Text, ◌===◌, ===_iff}
use tool.Js.{Value, Heap, snapshot_exact_record}
use tool.Definition.{is_number}
use tool.Payload.{parse_public_id, parse_version, parse_idempotency_key, parse_expiry}
use tool.Payload.Record.{Url}
use tool.Payload.Publish.{
  DirectoryPublishPayload, payload_fields, rejected, parse_record, payload_of,
  parse_directory_publish_payload,
}

both_equal : (s t : Text) (m n : ℕ) → (not (s === t) || not (m == n)) ≡ false → (s ≡ t) × (m ≡ n)
both_equal s t m n h = ground (arith, ===_iff s t)

module _ (parse_href : Text → Option Url) where
  payload_of-matches :
      (h : Heap) (vs : List Value) (p : DirectoryPublishPayload)
      → payload_of parse_href h vs ≡ ok p
      → ((p.candidate).offering_public_id ≡ p.offering_public_id)
        × ((p.candidate).offering_version ≡ p.offering_version)
  unfolding payload_of
  payload_of-matches h (schema ∷ offering ∷ version ∷ directory ∷ input ∷ key ∷ expiry ∷ []) p e =
      let (_, _, e1) = >>=-eq-ok (throw_if (not (is_number 1 schema)) rejected) _ e in
      let (offering', _, e2) = >>=-eq-ok (parse_public_id rejected offering) _ e1 in
      let (version', _, e3) = >>=-eq-ok (parse_version rejected version) _ e2 in
      let (c, _, e4) = >>=-eq-ok (parse_record parse_href h input) _ e3 in
      let (_, same, e5) =
        >>=-eq-ok
          (throw_if
            (not (c.offering_public_id === offering') || not (c.offering_version == version'))
            rejected)
          _ e4 in
      let (directory', _, e6) = >>=-eq-ok (parse_version rejected directory) _ e5 in
      let (key', _, e7) = >>=-eq-ok (parse_idempotency_key rejected key) _ e6 in
      let (expiry', _, e8) = >>=-eq-ok (parse_expiry rejected expiry) _ e7 in
      subst
        (λ p.
          ((p.candidate).offering_public_id ≡ p.offering_public_id)
          × ((p.candidate).offering_version ≡ p.offering_version))
        (ok-injective e8)
        (both_equal c.offering_public_id offering' c.offering_version version'
          (throw_if-eq-ok _ rejected same))
  payload_of-matches h _ p e = absurd cc

  -- A payload that is read publishes a record of its own offering, at its own version.
  pub parse_directory_publish_payload-matches :
      (h : Heap) (v : Value) (p : DirectoryPublishPayload)
      → parse_directory_publish_payload parse_href h v ≡ ok p
      → ((p.candidate).offering_public_id ≡ p.offering_public_id)
        × ((p.candidate).offering_version ≡ p.offering_version)
  unfolding parse_directory_publish_payload
  parse_directory_publish_payload-matches h v p e =
      let (values, _, read) =
        elim-eq-ok (snapshot_exact_record h v payload_fields) rejected (payload_of parse_href h)
          e in
      payload_of-matches h values p read
