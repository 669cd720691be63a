-- ===== src/PaidTask/Quote.antt =====
-- A quoted task: what creation checks, and what the clock decides. See
-- packages/core/src/paid-task-lifecycle.ts.
use tool.Common.{
  ℕ, ◌<◌, ◌≤◌, some, Result, ok, ◌≡◌, ◌↔◌, refl, arith, inl, inr, Result-cases, length, ==_refl,
}
use mathlib.Core.Path.{subst}
use tool.Common.Text.{Text, ===_iff, trim}
use tool.Js.{Value, string}
use tool.Timestamp.{parse_canonical_utc_milliseconds}
use tool.Registry.{get, find}
use tool.Lifecycle.{Store, issue_state}
use tool.PaidTask.{
  StateName, quoted, expired, payment_submitted, PaidTaskInput, PaidTaskSnapshot, expire,
  submits_payment, next_state_name, create_snapshot, create_paid_task, bounded_reference, text_of,
}

-- A reference as it is accepted: a trimmed text of 1 to 96 code units, unchanged.
pub record IsReference (v : Value) (t : Text) : Type 0 where
  pub same : v ≡ string t
  pub trimmed : trim t ≡ t
  pub nonblank : 1 ≤ length t
  pub short : length t ≤ 96

bounded_reference-IsReference :
    (v : Value) (t : Text) → bounded_reference v ≡ ok t → IsReference v t
unfolding bounded_reference
bounded_reference-IsReference (string s) t h = ground (arith, ===_iff (trim s) s)
bounded_reference-IsReference _ t h = absurd (ground arith)

parsed_text :
    (v : Value) (n : ℕ) → parse_canonical_utc_milliseconds v ≡ ok n → v ≡ string (text_of v)
unfolding parse_canonical_utc_milliseconds
parsed_text (string s) n h = refl
parsed_text _ n h = absurd (ground arith)

module _ (digest : Value → Result Text) where
  -- What the snapshot of a created task says of the input.
  pub record IsCreated (i : PaidTaskInput) (s : PaidTaskSnapshot) : Type 0 where
    pub task_ref : IsReference i.task_ref s.task_ref
    pub offering_version : IsReference i.offering_version s.offering_version
    pub expires : ℕ
    pub expires_at : parse_canonical_utc_milliseconds (string s.expires_at) ≡ ok expires
    pub requirements_digest : digest i.requirements ≡ ok s.requirements_digest

  abbrev created : PaidTaskInput → Text → Text → Text → PaidTaskSnapshot
  created i task version requirements_digest = record {
    task_ref = task;
    offering_version = version;
    requirements_digest = requirements_digest;
    expires_at = text_of i.expires_at;
  }

  create_snapshot-IsCreated :
      (i : PaidTaskInput) (s : PaidTaskSnapshot) → create_snapshot digest i ≡ ok s → IsCreated i s
  unfolding create_snapshot
  create_snapshot-IsCreated i s h = elim (Result-cases (bounded_reference i.task_ref)) [
    | inr (x, e) ↦ absurd (ground arith)
    | inl (task, e) ↦ elim (Result-cases (bounded_reference i.offering_version)) [
      | inr (x, f) ↦ absurd (ground arith)
      | inl (version, f) ↦ elim (Result-cases (parse_canonical_utc_milliseconds i.expires_at)) [
        | inr (x, g) ↦ absurd (ground arith)
        | inl (time, g) ↦ elim (Result-cases (digest i.requirements)) [
          | inr (x, k) ↦ absurd (ground arith)
          | inl (d, k) ↦
              let same : created i task version d ≡ s = ground arith in
              subst (IsCreated i) same (record {
                task_ref = bounded_reference-IsReference i.task_ref task e;
                offering_version = bounded_reference-IsReference i.offering_version version f;
                expires = time;
                expires_at = rw (← parsed_text i.expires_at time g) g;
                requirements_digest = k;
              })
        ]
      ]
    ]
  ]

  -- A task that is created is quoted: it is issued with references that are trimmed, nonblank and of
  -- at most 96 code units, an expiry that can be read, and the digest of its requirements.
  pub create_paid_task-IsCreated :
      (tasks tasks' : Store StateName PaidTaskSnapshot) (i : PaidTaskInput) (r : ℕ)
      → create_paid_task digest tasks i ≡ (tasks', ok r)
      → (s : PaidTaskSnapshot) × (get tasks'.issued r ≡ some (quoted, s)) × IsCreated i s
  unfolding create_paid_task issue_state find
  create_paid_task-IsCreated tasks tasks' i r h = elim (Result-cases (create_snapshot digest i)) [
    | inr (x, e) ↦ absurd (ground arith)
    | inl (s, e) ↦ (s, ground (arith, ==_refl tasks.issued.next), create_snapshot-IsCreated i s e)
  ]

  -- Exactly one of expiry and payment is open to a quoted task at a time that can be read, with
  -- requirements that have a digest: from the
  -- expiry on the task expires and no payment is accepted; before it the task does not expire, and a
  -- payment is accepted exactly for requirements with the digest of the task.
  pub quoted_at :
      (s : PaidTaskSnapshot) (at requirements : Value) (observed expires : ℕ) (submitted : Text)
      → parse_canonical_utc_milliseconds at ≡ ok observed
      → parse_canonical_utc_milliseconds (string s.expires_at) ≡ ok expires
      → digest requirements ≡ ok submitted
      → ((next_state_name digest quoted (expire at) s ≡ ok expired) ↔ (expires ≤ observed))
        × ((next_state_name digest quoted (submits_payment at requirements) s
              ≡ ok payment_submitted)
            ↔ ((observed < expires) × (submitted ≡ s.requirements_digest)))
  unfolding next_state_name
  quoted_at s at requirements observed expires submitted p q d =
      rw (p, q, d) (ground (arith, ===_iff submitted s.requirements_digest))
