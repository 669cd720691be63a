-- ===== src/Payload/Attach/RoundTrip.antt =====
-- The payload of packages/core/src/attach-candidate-payload.ts: what holds of one that was read, and its
-- projection read again.
use mathlib.Core.Path.{subst}
use tool.Common.{
  Bool, true, false, not, Option, none, some, Option-cases, inl, inr, List, [], ◌∷◌, ok, err,
  throw_if, >>=-eq-ok, elim-eq-ok, throw_if-eq-ok, ok-injective, ◌≡◌, ◌≢◌, ◌↔◌, refl, sym, ap, ◌∙◌,
  arith, if◌then◌else◌,
}
use tool.Common.Int.{pos}
use tool.Common.Text.{Text, ◌===◌, ===_refl}
use tool.Js.{Value, string, number, integral, object, Heap, object_literal, snapshot_optional}
use tool.Value.{parse_hedera_transaction_id}
use tool.Patterns.{evm_address_pattern}
use tool.Definition.{is_number}
use tool.Payload.{
  ExternalOperationKind, ats_create, kind_text, parse_operation_kind, parse_idempotency_key,
  parse_expiry,
}
use tool.Payload.Stable.{
  parse_operation_kind-kind_text, parse_idempotency_key-stable, parse_expiry-stable,
}
use tool.Payload.Attach.{
  AttachCandidatePayload, rejected, mirror_transaction_id_pattern, parse_candidate_transaction_id,
  parse_evm_address, payload_of, parse_attach_candidate_payload, projection, required_fields,
  optional_field,
}

address_values : Option Text → List Value
address_values none = []
address_values (some a) = string a ∷ []

-- What was read, field by field.
record Valid (p : AttachCandidatePayload) : Type 0 where
  schema : p.schema_version ≡ 1
  attempt : parse_idempotency_key rejected (string p.attempt_public_id) ≡ ok p.attempt_public_id
  key : parse_idempotency_key rejected (string p.idempotency_key) ≡ ok p.idempotency_key
  differ : (p.attempt_public_id === p.idempotency_key) ≡ false
  address :
      parse_evm_address p.operation_kind (address_values p.candidate_evm_address)
      ≡ ok p.candidate_evm_address
  candidate :
      parse_candidate_transaction_id (string p.candidate_transaction_id)
      ≡ ok p.candidate_transaction_id
  expiry : parse_expiry rejected (string p.expires_at) ≡ ok p.expires_at

parse_evm_address-stable :
    (k : ExternalOperationKind) (vs : List Value) (a : Option Text)
    → parse_evm_address k vs ≡ ok a
    → parse_evm_address k (address_values a) ≡ ok a
unfolding parse_evm_address address_values
parse_evm_address-stable k [] a h = ground arith
parse_evm_address-stable k (string s ∷ []) a h = ground arith
parse_evm_address-stable k _ a h = absurd cc

transaction_id-kept : (t s : Text) → parse_hedera_transaction_id (string t) ≡ some s → t ≡ s
unfolding parse_hedera_transaction_id
transaction_id-kept t s h = ground arith

candidate-kept :
    (o : Option Text) (t s : Text) (b : Bool)
    → ((s : Text) → o ≡ some s → t ≡ s)
    → (elim o [ some u ↦ ok u | none ↦ if b then ok t else err rejected ]) ≡ ok s
    → t ≡ s
candidate-kept none t s b kept h = ground arith
candidate-kept (some u) t s b kept h = kept u refl ∙ ok-injective h

parse_candidate-stable :
    (v : Value) (s : Text)
    → parse_candidate_transaction_id v ≡ ok s
    → parse_candidate_transaction_id (string s) ≡ ok s
unfolding parse_candidate_transaction_id
parse_candidate-stable (string t) s h =
    let same =
      candidate-kept (parse_hedera_transaction_id (string t)) t s (mirror_transaction_id_pattern t)
        (transaction_id-kept t) h in
    subst (λ u. parse_candidate_transaction_id (string u) ≡ ok u) same (h ∙ ap ok (sym same))
parse_candidate-stable _ s h = absurd cc

Valid-payload_of : (vs : List Value) (p : AttachCandidatePayload) → payload_of vs ≡ ok p → Valid p
unfolding payload_of
Valid-payload_of (version ∷ attempt ∷ kind ∷ candidate ∷ key ∷ expiry ∷ address) p h =
    let (_, version_ok, h1) = >>=-eq-ok (throw_if (not (is_number 1 version)) rejected) _ h in
    let (k, kind_ok, h2) = >>=-eq-ok (parse_operation_kind rejected kind) _ h1 in
    let (a, attempt_ok, h3) = >>=-eq-ok (parse_idempotency_key rejected attempt) _ h2 in
    let (i, key_ok, h4) = >>=-eq-ok (parse_idempotency_key rejected key) _ h3 in
    let (_, differ, h5) = >>=-eq-ok (throw_if (a === i) rejected) _ h4 in
    let (evm, address_ok, h6) = >>=-eq-ok (parse_evm_address k address) _ h5 in
    let (c, candidate_ok, h7) = >>=-eq-ok (parse_candidate_transaction_id candidate) _ h6 in
    let (x, expiry_ok, h8) = >>=-eq-ok (parse_expiry rejected expiry) _ h7 in
    subst Valid (ok-injective h8) record {
      schema = refl;
      attempt = parse_idempotency_key-stable rejected attempt a attempt_ok;
      key = parse_idempotency_key-stable rejected key i key_ok;
      differ = throw_if-eq-ok (a === i) rejected differ;
      address = parse_evm_address-stable k address evm address_ok;
      candidate = parse_candidate-stable candidate c candidate_ok;
      expiry = parse_expiry-stable rejected expiry x expiry_ok;
    }
Valid-payload_of _ p h = absurd cc

-- The values of the projection.
projected : AttachCandidatePayload → List Value
projected p =
    number (integral (pos p.schema_version))
    ∷ string p.attempt_public_id
    ∷ string (kind_text p.operation_kind)
    ∷ string p.candidate_transaction_id
    ∷ string p.idempotency_key
    ∷ string p.expires_at
    ∷ address_values p.candidate_evm_address

payload_of-projected : (p : AttachCandidatePayload) → Valid p → payload_of (projected p) ≡ ok p
unfolding payload_of projected
payload_of-projected p v =
    rw
      (
        v.schema,
        parse_operation_kind-kind_text rejected p.operation_kind,
        v.attempt,
        v.key,
        v.differ,
        v.address,
        v.candidate,
        v.expiry,
      )
      refl

snapshot-projected :
    (p : AttachCandidatePayload)
    → snapshot_optional
        (λ r. object_literal (projection p))
        (object 0)
        required_fields
        optional_field
      ≡ some (projected p)
unfolding snapshot_optional object_literal projection projected address_values
snapshot-projected p = elim (Option-cases p.candidate_evm_address) [
  | inl e ↦ rw e refl
  | inr (a, e) ↦ rw e refl
]

Valid-parse :
    (h : Heap) (v : Value) (p : AttachCandidatePayload)
    → parse_attach_candidate_payload h v ≡ ok p
    → Valid p
unfolding parse_attach_candidate_payload
Valid-parse h v p e =
    let (values, _, read) =
      elim-eq-ok (snapshot_optional h v required_fields optional_field) rejected payload_of e in
    Valid-payload_of values p read

-- A payload that was read is read again, as itself, from the object that the program projects it to.
pub parse_attach_candidate_payload-projection :
    (h : Heap) (v : Value) (p : AttachCandidatePayload)
    → parse_attach_candidate_payload h v ≡ ok p
    → parse_attach_candidate_payload (λ r. object_literal (projection p)) (object 0) ≡ ok p
unfolding parse_attach_candidate_payload
parse_attach_candidate_payload-projection h v p e =
    ap (λ o. elim o [ none ↦ err rejected | some values ↦ payload_of values ])
      (snapshot-projected p)
    ∙ payload_of-projected p (Valid-parse h v p e)

address-given :
    (k : ExternalOperationKind) (a : Option Text)
    → parse_evm_address k (address_values a) ≡ ok a
    → ((k ≡ ats_create) ↔ ((t : Text) × (a ≡ some t)))
      × ((t : Text) → a ≡ some t → evm_address_pattern t ≡ true)
unfolding parse_evm_address address_values
address-given k none h = ground arith
address-given k (some t) h = (ground arith, λ u same. ground arith)

-- In a payload that was read, the attempt and the idempotency key differ, the operation is the
-- creation of a token exactly when there is a candidate address, and a candidate address has the form
-- 0x and 40 hexadecimal digits.
pub parse_attach_candidate_payload_sound :
    (h : Heap) (v : Value) (p : AttachCandidatePayload)
    → parse_attach_candidate_payload h v ≡ ok p
    → (p.attempt_public_id ≢ p.idempotency_key)
      × ((p.operation_kind ≡ ats_create) ↔ ((t : Text) × (p.candidate_evm_address ≡ some t)))
      × ((t : Text) → p.candidate_evm_address ≡ some t → evm_address_pattern t ≡ true)
parse_attach_candidate_payload_sound h v p e =
    let valid = Valid-parse h v p e in
    let given = address-given p.operation_kind p.candidate_evm_address valid.address in
    (λ same. let equal = ===_refl p.attempt_public_id in cc, given.0, given.1)
