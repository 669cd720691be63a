-- ===== src/PaidTask/Payment.antt =====
-- Every state past the payment was paid for: see packages/core/src/paid-task-lifecycle.ts.
use mathlib.Core.Path.{subst}
use tool.Common.{
  ℕ, zero, suc, ◌<◌, Bool, true, false, some, List, [], ◌∷◌, Result, ok, ◌≡◌, refl, sym, arith, inl,
  inr, Result-cases, All, if◌then◌else◌,
}
use tool.Common.Text.{Text, ===_iff}
use tool.Js.{Value, string}
use tool.Timestamp.{parse_canonical_utc_milliseconds}
use tool.Registry.{get}
use tool.Lifecycle.Provenance.{Reach, created, moved, run-Reach}
use tool.Lifecycle.{Handle, reference, Store}
use tool.Lifecycle.Run.{Action, System, new_system, run, claim-eq-ok}
use tool.Lifecycle.History.{recorded, recorded_name, recorded_run, recorded-eq-ok, run-recorded}
use tool.Lifecycle.Started.{IsStarted, run-IsStarted}
use tool.PaidTask.{
  StateName, quoted, expired, PaidTaskSnapshot, Event, expire, submits_payment, invalid_transition,
  next_state_name, is_result_valid, claim_paid_task_result_for_clearing,
}

abbrev pub is_past_payment : StateName → Bool
is_past_payment quoted = false
is_past_payment expired = false
is_past_payment _ = true

-- The payments that were submitted.
abbrev pub payments : List Event → ℕ
payments [] = zero
payments (submits_payment observed_at requirements ∷ es) = suc (payments es)
payments (_ ∷ es) = payments es

module _ (digest : Value → Result Text) where
  -- The time of the payment is read and is before the expiry of the task, and its requirements have
  -- the digest of the task.
  pub record IsInTime (snapshot : PaidTaskSnapshot) (observed_at requirements : Value)
      : Type 0 where
    pub observed : ℕ
    pub expires : ℕ
    pub at : parse_canonical_utc_milliseconds observed_at ≡ ok observed
    pub until : parse_canonical_utc_milliseconds (string snapshot.expires_at) ≡ ok expires
    pub in_time : observed < expires
    pub same_requirements : digest requirements ≡ ok snapshot.requirements_digest

  abbrev pub IsFair : PaidTaskSnapshot → Event → Type 0
  IsFair snapshot (submits_payment observed_at requirements) =
      IsInTime snapshot observed_at requirements
  IsFair snapshot _ = Unit

  -- One payment was submitted, and every payment that was submitted was in time.
  pub record IsPaid (snapshot : PaidTaskSnapshot) (es : List Event) : Type 0 where
    pub once : payments es ≡ 1
    pub fair : All (IsFair snapshot) es

  submits-IsInTime :
      (observed_at requirements : Value) (snapshot : PaidTaskSnapshot) (m : StateName)
      → next_state_name digest quoted (submits_payment observed_at requirements) snapshot ≡ ok m
      → IsInTime snapshot observed_at requirements
  unfolding next_state_name
  submits-IsInTime observed_at requirements snapshot m h =
      elim (Result-cases (parse_canonical_utc_milliseconds observed_at)) [
        | inr (x, e) ↦ absurd (ground arith)
        | inl (observed, e) ↦
            elim (Result-cases (parse_canonical_utc_milliseconds (string snapshot.expires_at))) [
              | inr (x, f) ↦ absurd (ground arith)
              | inl (expires, f) ↦ elim (Result-cases (digest requirements)) [
                | inr (x, g) ↦ absurd (ground arith)
                | inl (submitted, g) ↦ record {
                  observed = observed;
                  expires = expires;
                  at = e;
                  until = f;
                  in_time = ground arith;
                  same_requirements =
                      ground (arith, ===_iff submitted snapshot.requirements_digest);
                }
              ]
            ]
      ]

  step-IsFair :
      (n m : StateName) (e : Event) (snapshot : PaidTaskSnapshot)
      → next_state_name digest n e snapshot ≡ ok m
      → IsFair snapshot e
  unfolding next_state_name
  step-IsFair quoted m (submits_payment o r) snapshot h = submits-IsInTime o r snapshot m h
  step-IsFair _ m (submits_payment o r) snapshot h = absurd (ground arith)
  step-IsFair n m _ snapshot h = tt

  -- The payments that a state has behind it.
  abbrev paid : StateName → ℕ
  paid n = if is_past_payment n then 1 else 0

  step-payments :
      (n m : StateName) (e : Event) (es : List Event) (snapshot : PaidTaskSnapshot)
      → next_state_name digest n e snapshot ≡ ok m
      → payments es ≡ paid n
      → payments (e ∷ es) ≡ paid m
  unfolding next_state_name
  step-payments quoted m (submits_payment o r) es snapshot h k = ground arith
  step-payments quoted m (expire o) es snapshot h k = ground arith
  step-payments quoted m _ es snapshot h k = absurd (ground arith)
  step-payments n m (submits_payment o r) es snapshot h k = absurd (ground arith)
  step-payments n m (expire o) es snapshot h k = absurd (ground arith)
  step-payments n m e es snapshot h k = ground arith

  record IsCounted (snapshot : PaidTaskSnapshot) (n : StateName × List Event) : Type 0 where
    count : payments n.1 ≡ paid n.0
    fair : All (IsFair snapshot) n.1

  Reach-IsCounted :
      {snapshot : PaidTaskSnapshot} {n : StateName × List Event}
      → Reach (recorded (next_state_name digest)) (quoted, []) snapshot n
      → IsCounted snapshot n
  Reach-IsCounted created = record { count = refl; fair = tt }
  Reach-IsCounted {snapshot} (moved {n} {m} r e q) =
      let (allowed, added) = recorded-eq-ok (next_state_name digest) n m e snapshot q in
      let before = Reach-IsCounted r in
      record {
        count = rw added (step-payments n.0 m.0 e n.1 snapshot allowed before.count);
        fair =
            subst (All (IsFair snapshot)) (sym added)
              (step-IsFair n.0 m.0 e snapshot allowed, before.fair);
      }

  result_past_payment : (n : StateName) → is_result_valid n ≡ true → is_past_payment n ≡ true
  result_past_payment n h = ground arith

  abbrev pub paid_task_run :
      List (Action PaidTaskSnapshot Event) → System StateName PaidTaskSnapshot
  paid_task_run = run (next_state_name digest) quoted is_result_valid invalid_transition new_system

  -- The same run, with the events that have led to each state.
  abbrev pub paid_task_history :
      List (Action PaidTaskSnapshot Event) → System (StateName × List Event) PaidTaskSnapshot
  paid_task_history =
      recorded_run (next_state_name digest) quoted is_result_valid invalid_transition

  -- Whatever the calls on paid tasks and however they interleave: the recorded run has the events that
  -- have led to a state past the payment; the calls have started each of them, and exactly one
  -- submitted a payment, at a time before the task expired and for requirements with its digest.
  pub run-IsPaid :
      (actions : List (Action PaidTaskSnapshot Event)) (r : ℕ) (n : StateName)
      (snapshot : PaidTaskSnapshot)
      → get (paid_task_run actions).store.issued r ≡ some (n, snapshot)
      → is_past_payment n ≡ true
      → (es : List Event) × (get (paid_task_history actions).store.issued r
          ≡ some ((n, es), snapshot))
        × All (IsStarted actions) es
        × IsPaid snapshot es
  run-IsPaid actions r n snapshot found past =
      let (es, kept) =
        run-recorded (next_state_name digest) quoted is_result_valid invalid_transition actions r n
          snapshot found in
      let counted = Reach-IsCounted (
        run-Reach (recorded (next_state_name digest)) (quoted, []) (recorded_name is_result_valid)
          invalid_transition actions r (n, es) snapshot kept) in
      (
        es,
        kept,
        run-IsStarted (next_state_name digest) quoted is_result_valid invalid_transition actions r n
            es snapshot kept,
        record { once = ground arith; fair = counted.fair },
      )

  -- Whatever the calls on paid tasks and however they interleave: a task whose result is claimed for
  -- clearing is an issued one with a valid result, the recorded run has the events that have led to
  -- it, the calls have started each of them, and exactly one submitted a payment, at a time before the
  -- task expired and for requirements with its digest.
  pub claim-IsPaid :
      (actions : List (Action PaidTaskSnapshot Event)) (h : Handle) (snapshot : PaidTaskSnapshot)
      (tasks : Store StateName PaidTaskSnapshot)
      → claim_paid_task_result_for_clearing (paid_task_run actions).store h ≡ (tasks, ok snapshot)
      → (r : ℕ) × (n : StateName) × (es : List Event) × (h ≡ reference r)
        × (is_result_valid n ≡ true)
        × (get (paid_task_history actions).store.issued r ≡ some ((n, es), snapshot))
        × All (IsStarted actions) es
        × IsPaid snapshot es
  unfolding claim_paid_task_result_for_clearing
  claim-IsPaid actions h snapshot tasks e =
      let (r, n, issued, wanted, same, _) =
        claim-eq-ok is_result_valid invalid_transition _ tasks h snapshot e in
      let (es, kept, started, paid_for) =
        run-IsPaid actions r n snapshot issued (result_past_payment n wanted) in
      (r, n, es, same, wanted, kept, started, paid_for)
