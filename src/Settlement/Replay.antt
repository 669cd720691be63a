-- ===== src/Settlement/Replay.antt =====
-- Recording again, in packages/backend/convex/riskscan_settlement_attempts.ts.
use mathlib.Core.Path.{subst}
use tool.Common.{
  ℕ, ◌+◌, length-append, Result-cases, Option-cases, Bool, true, false, ◌&&◌, Option, none, some,
  List, [], ◌∷◌, ◌++◌, length, Result, ok, err, Error, ◌≡◌, ◌≢◌, ◌⊎◌, inl, inr, refl, sym, ap, ◌∙◌,
  arith, if◌then◌else◌,
}
use tool.Common.Int.{ℤ, eqb_ℤ}
use tool.Common.Text.{Text, codes, ===_refl, ===_iff}
use tool.Js.{Object, object_literal}
use tool.Eligibility.{is_text}
use tool.Settlement.{RiskScanSettlementAttemptCandidateDocument}
use tool.Settlement.Attempts.{
  Database, Arguments, Recorded, created, replayed, Attempt, document, read_property, settlement,
  read_eligible_risk_scan_request, matches_initial_settlement_attempt,
  read_stored_settlement_attempt, with_key, admitted, insert_attempt, record_attempt,
  record_eligible, record_admitted, record_initial_risk_scan_settlement_attempt, ineligible,
  conflict,
}

eqb_refl : (z : ℤ) → eqb_ℤ z z ≡ true
eqb_refl z = ground arith

row : Text → Attempt → Object
row id a = object_literal (document id a)

row-matches : (id : Text) (a : Attempt) → matches_initial_settlement_attempt (row id a) a ≡ true
unfolding matches_initial_settlement_attempt row document object_literal
row-matches id a =
    rw
      (
        ===_refl a.public_id,
        ===_refl a.request_id,
        ===_refl (a.candidate).idempotency_key_hash,
        ===_refl (a.candidate).network,
        ===_refl (a.candidate).candidate_settlement_ref,
        eqb_refl (a.candidate).next_reconciliation_at,
        eqb_refl (a.candidate).created_at,
        eqb_refl (a.candidate).updated_at,
      )
      refl

row-stored :
    (id : Text) (a : Attempt) → id ≢ [] → read_stored_settlement_attempt (row id a) a ≡ some id
unfolding read_stored_settlement_attempt row document object_literal
row-stored [] a h = absurd (h refl)
row-stored (c ∷ s) a h = ap (λ b. if b then some (c ∷ s) else none) (row-matches (c ∷ s) a)

skipped :
    (b : Bool) (o : Object) (os : List Object)
    → (if b then o ∷ os else os) ≡ []
    → (b ≡ false) × (os ≡ [])
skipped true o os h = absurd cc
skipped false o os h = (refl, h)

with_key-append :
    (hash : Text) (os : List Object) (id : Text) (a : Attempt)
    → (a.candidate).idempotency_key_hash ≡ hash
    → with_key hash os ≡ []
    → with_key hash (os ++ (row id a ∷ [])) ≡ row id a ∷ []
unfolding with_key row document object_literal
with_key-append hash [] id a e h =
    ap (λ b. if b then row id a ∷ [] else [])
      ((===_iff (a.candidate).idempotency_key_hash hash).1 e)
with_key-append hash (o ∷ os) id a e h =
    let skip =
      is_text settlement (read_property o (codes "operation"))
      && is_text hash (read_property o (codes "idempotencyKeyHash")) in
    let (differs, none_after) = skipped skip o (with_key hash os) h in
    let later = with_key hash (os ++ (row id a ∷ [])) in
    ap (λ b. if b then o ∷ later else later) differs ∙ with_key-append hash os id a e none_after

-- A run either creates an attempt, and then the same run again finds it and changes nothing, or it
-- changes nothing.
unfoldable pub Outcome : (ℕ → Text) → Database → Arguments → Database × Result Recorded → Type 0
Outcome identifier db args (db', r) =
    ((id : Text) × (r ≡ ok (created id))
      × (length db'.attempts ≡ length db.attempts + 1)
      × (record_initial_risk_scan_settlement_attempt identifier db' args ≡ (db', ok (replayed id))))
    ⊎ ((db' ≡ db) × ((id : Text) → r ≢ ok (created id)))

attempt_of : Arguments → Text → RiskScanSettlementAttemptCandidateDocument → Attempt
attempt_of args p c = record { public_id = p; request_id = args.request_id; candidate = c }

abbrev replay : Database → Option Text → Database × Result Recorded
replay db x = (db, elim x [ none ↦ err conflict | some i ↦ ok (replayed i) ])

never_created :
    (x : Option Text) (id : Text)
    → (elim x [ none ↦ err conflict | some i ↦ ok (replayed i) ]) ≢ ok (created id)
never_created none id h = cc
never_created (some i) id h = cc

module _ (identifier : ℕ → Text) where
  lookup :
      (db : Database) (args : Arguments) (p : Text) (c : RiskScanSettlementAttemptCandidateDocument)
      → admitted args ≡ ok c
      → read_eligible_risk_scan_request (db.requests args.request_id) ≡ some p
      → record_initial_risk_scan_settlement_attempt identifier db args
        ≡ record_attempt identifier db
            (attempt_of args p c)
            (with_key c.idempotency_key_hash db.attempts)
  unfolding record_initial_risk_scan_settlement_attempt record_admitted record_eligible attempt_of
  lookup db args p c h k =
      ap (record_admitted identifier db args) h ∙ ap (record_eligible identifier db args c) k

  nothing : (db : Database) (args : Arguments) (e : Error) → Outcome identifier db args (db, err e)
  unfolding Outcome
  nothing db args e = inr (refl, λ id h. cc)

  refused :
      (db : Database) (args : Arguments) (e : Error)
      → admitted args ≡ err e
      → record_initial_risk_scan_settlement_attempt identifier db args ≡ (db, err e)
  unfolding record_initial_risk_scan_settlement_attempt record_admitted record_eligible
  refused db args e h = ap (record_admitted identifier db args) h

  ineligible_refused :
      (db : Database) (args : Arguments) (c : RiskScanSettlementAttemptCandidateDocument)
      → admitted args ≡ ok c
      → read_eligible_risk_scan_request (db.requests args.request_id) ≡ none
      → record_initial_risk_scan_settlement_attempt identifier db args ≡ (db, err ineligible)
  unfolding record_initial_risk_scan_settlement_attempt record_admitted record_eligible
  ineligible_refused db args c h k =
      ap (record_admitted identifier db args) h ∙ ap (record_eligible identifier db args c) k

  module _ (nonempty : (n : ℕ) → identifier n ≢ []) where
    -- Recorded, the attempt is what the lookup finds.
    again :
        (db : Database) (a : Attempt)
        → with_key (a.candidate).idempotency_key_hash db.attempts ≡ []
        → record_attempt identifier (insert_attempt identifier db a) a (
            with_key (a.candidate).idempotency_key_hash ((insert_attempt identifier db a).attempts))
          ≡ (insert_attempt identifier db a, ok (replayed (identifier (length db.attempts))))
    unfolding insert_attempt record_attempt row
    again db a h =
        let id = identifier (length db.attempts) in
        let db' = insert_attempt identifier db a in
        ap (record_attempt identifier db' a)
          (with_key-append ((a.candidate).idempotency_key_hash) db.attempts id a refl h)
        ∙ ap (replay db') (row-stored id a (nonempty (length db.attempts)))

    found :
        (db : Database) (args : Arguments) (p : Text)
        (c : RiskScanSettlementAttemptCandidateDocument)
        → admitted args ≡ ok c
        → read_eligible_risk_scan_request (db.requests args.request_id) ≡ some p
        → (os : List Object) → with_key c.idempotency_key_hash db.attempts ≡ os
        → Outcome identifier db args (record_attempt identifier db (attempt_of args p c) os)
    unfolding Outcome record_attempt insert_attempt attempt_of
    found db args p c h k [] l =
        let a = attempt_of args p c in
        inl (
          identifier (length db.attempts),
          refl,
          length-append db.attempts (_ ∷ []),
          lookup (insert_attempt identifier db a) args p c h k ∙ again db a l,
        )
    found db args p c h k (o ∷ []) l =
        inr (refl, never_created (read_stored_settlement_attempt o (attempt_of args p c)))
    found db args p c h k (o ∷ o' ∷ os) l = inr (refl, λ id h. cc)

    -- Where the ids of the database are not empty: a recording either creates one attempt more, and the
    -- same recording again is a replay that gives the same id and changes nothing, or it creates no
    -- attempt and changes nothing.
    pub record_initial-Outcome :
        (db : Database) (args : Arguments)
        → Outcome identifier db args
            (record_initial_risk_scan_settlement_attempt identifier db args)
    record_initial-Outcome db args = elim (Result-cases (admitted args)) [
      | inr (e, q) ↦
          subst (Outcome identifier db args) (sym (refused db args e q)) (nothing db args e)
      | inl (c, q) ↦
          elim (Option-cases (read_eligible_risk_scan_request (db.requests args.request_id))) [
            | inl k ↦
                subst (Outcome identifier db args) (sym (ineligible_refused db args c q k))
                  (nothing db args ineligible)
            | inr (p, k) ↦
                subst (Outcome identifier db args) (sym (lookup db args p c q k))
                  (found db args p c q k (with_key c.idempotency_key_hash db.attempts) refl)
          ]
    ]
