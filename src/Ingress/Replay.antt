-- ===== src/Ingress/Replay.antt =====
-- The texts of packages/core/src/ingress-envelope.ts that are signed and that tell replays: what they
-- determine.
use mathlib.Core.Path.{subst}
use tool.Common.{
  ℕ, zero, suc, ◌+◌, Bool, true, false, not, ◌&&◌, ◌↔◌, List, [], ◌∷◌, ◌++◌, length, take, drop,
  all, leb, ◌==◌, ok, >>=-eq-ok, elim-eq-ok, ◌≡◌, refl, sym, ap, ◌∙◌, arith, and_split,
  ok-injective,
}
use tool.Common.Int.{ℤ, pos}
use tool.Common.Text.{Text, codes}
use tool.Js.{Value, string, Heap, snapshot_exact_record}
use tool.Value.{is_digit, canonical_integer, big_int}
use tool.Value.Decimal.{decimal, decimal-big_int}
use tool.Patterns.{
  is_word, is_one_of, parse_string, parse_string-eq-ok, word_pattern, key_pattern, encoded_pattern,
  hexadecimal_pattern,
}
use tool.Ingress.{
  IngressEnvelope, is_timestamp, text_of, parse_timestamp, parse_values, parse_ingress_envelope,
  signing_input, replay_identity, rejected, post, commands_path, ingress_fields, signature_end,
}
use tool.Ingress.Bounds.{canonical_integer-digits, is_timestamp→canonical}

-- Texts without the unit `c`.
is_free : ℕ → Text → Bool
is_free c s = all (λ d. not (d == c)) s

head_tail : (d d' : ℕ) (s s' : Text) → ◌≡◌ {A = Text} (d ∷ s) (d' ∷ s') → (d ≡ d') × (s ≡ s')
head_tail d d' s s' h = (cc, cc)

tail_free : (c d : ℕ) (s : Text) → is_free c (d ∷ s) ≡ true → is_free c s ≡ true
unfolding is_free
tail_free c d s h = (and_split (not (d == c)) (is_free c s) h).1

-- A text without `c`, followed by `c`, is determined by the whole, and so is what comes after.
split_at :
    (c : ℕ) (s s' t t' : Text)
    → is_free c s ≡ true
    → is_free c s' ≡ true
    → (s ++ ((c ∷ []) ++ t)) ≡ (s' ++ ((c ∷ []) ++ t'))
    → (s ≡ s') × (t ≡ t')
unfolding is_free
split_at c [] [] t t' f g h = (refl, cc)
split_at c [] (d ∷ s') t t' f g h = absurd (ground arith)
split_at c (d ∷ s) [] t t' f g h = absurd (ground arith)
split_at c (d ∷ s) (d' ∷ s') t t' f g h =
    let (same, later) = head_tail d d' (s ++ c ∷ t) (s' ++ c ∷ t') h in
    let (start, end) = split_at c s s' t t' (tail_free c d s f) (tail_free c d' s' g) later in
    (rw (same, start) refl, end)

word_free : (c : ℕ) (s : Text) → is_word c ≡ false → all is_word s ≡ true → is_free c s ≡ true
unfolding is_free
word_free c [] f h = refl
word_free c (d ∷ s) f h =
    let (word, words) = and_split (is_word d) (all is_word s) h in
    rw (word_free c s f words) (ground (arith, ap is_word {x = d} {y = c}))

digit_free : (s : Text) → all is_digit s ≡ true → is_free b'\n' s ≡ true
unfolding is_free is_digit
digit_free [] h = refl
digit_free (d ∷ s) h = ground (arith, digit_free s)

first_two : (a b c : Bool) → (a && b && c) ≡ true → (a ≡ true) × (b ≡ true)
first_two a b c h = ground arith

all-take-drop :
    (p : ℕ → Bool) (n : ℕ) (s : Text)
    → all p (take n s) ≡ true
    → all p (drop n s) ≡ true
    → all p s ≡ true
all-take-drop p zero s h k = k
all-take-drop p (suc n) [] h k = refl
all-take-drop p (suc n) (c ∷ s) h k =
    let (first, others) = and_split (p c) (all p (take n s)) h in
    rw (first, all-take-drop p n s others k) refl

last_word : (s : Text) → all (is_one_of (codes "AQgw")) s ≡ true → all is_word s ≡ true
last_word [] h = refl
last_word (c ∷ s) h =
    let (first, others) =
      and_split (is_one_of (codes "AQgw") c) (all (is_one_of (codes "AQgw")) s) h in
    rw (last_word s others) (ground arith)

key_pattern-words : (s : Text) → key_pattern s ≡ true → all is_word s ≡ true
unfolding key_pattern encoded_pattern
key_pattern-words s h =
    let (words, last) =
      first_two (all is_word (take 21 s)) (all (is_one_of (codes "AQgw")) (drop 21 s))
        (length s == 21 + 1) h in
    all-take-drop is_word 21 s words (last_word (drop 21 s) last)

word_pattern-words : (n : ℕ) (s : Text) → word_pattern n s ≡ true → all is_word s ≡ true
unfolding word_pattern
word_pattern-words n s h = (first_two (all is_word s) (leb 1 (length s)) (leb (length s) n) h).0

parse_timestamp-eq-ok :
    (v : Value) (t : ℤ)
    → parse_timestamp v ≡ ok t
    → (is_timestamp (text_of v) ≡ true) × (t ≡ pos (big_int 0 (text_of v)))
unfolding parse_timestamp
parse_timestamp-eq-ok (string s) t h = ground arith
parse_timestamp-eq-ok _ t h = absurd cc

-- What is known of an envelope that was read.
record Reading (e : IngressEnvelope) : Type 0 where
  stamp : Text
  canonical : canonical_integer stamp ≡ true
  time : e.timestamp_unix_seconds ≡ pos (big_int 0 stamp)
  key : all is_word e.key_id ≡ true
  nonce : all is_word e.request_nonce ≡ true
  signed : e.signing_input ≡ signing_input post commands_path stamp e.request_nonce e.body_sha256
  identity : e.replay_identity ≡ replay_identity e.key_id e.request_nonce

Reading-parse_values : (vs : List Value) (e : IngressEnvelope) → parse_values vs ≡ ok e → Reading e
unfolding parse_values
Reading-parse_values (raw_key ∷ raw_time ∷ raw_nonce ∷ raw_digest ∷ raw_signature ∷ []) e h =
    let (key, key_ok, h1) = >>=-eq-ok (parse_string rejected (word_pattern 64) raw_key) _ h in
    let (time, time_ok, h2) = >>=-eq-ok (parse_timestamp raw_time) _ h1 in
    let (nonce, nonce_ok, h3) = >>=-eq-ok (parse_string rejected key_pattern raw_nonce) _ h2 in
    let (digest, digest_ok, h4) =
      >>=-eq-ok (parse_string rejected (hexadecimal_pattern 64) raw_digest) _ h3 in
    let (signature, signature_ok, h5) =
      >>=-eq-ok (parse_string rejected (encoded_pattern 42 signature_end) raw_signature) _ h4 in
    let (accepted, time_is) = parse_timestamp-eq-ok raw_time time time_ok in
    let canonical = is_timestamp→canonical (text_of raw_time) accepted in
    subst Reading (ok-injective h5) record {
      stamp = text_of raw_time;
      canonical = canonical;
      time = time_is;
      key =
          word_pattern-words 64 key
            (parse_string-eq-ok rejected (word_pattern 64) raw_key key key_ok).1;
      nonce =
          key_pattern-words nonce
            (parse_string-eq-ok rejected key_pattern raw_nonce nonce nonce_ok).1;
      signed = refl;
      identity = refl;
    }
Reading-parse_values _ e h = absurd cc

Reading-parse :
    (h : Heap) (v : Value) (e : IngressEnvelope) → parse_ingress_envelope h v ≡ ok e → Reading e
unfolding parse_ingress_envelope
Reading-parse h v e p =
    let (values, _, read) =
      elim-eq-ok (snapshot_exact_record h v ingress_fields) rejected parse_values p in
    Reading-parse_values values e read

replay_identity-binds :
    (a b : IngressEnvelope)
    → Reading a
    → Reading b
    → (a.replay_identity ≡ b.replay_identity)
      ↔ ((a.key_id ≡ b.key_id) × (a.request_nonce ≡ b.request_nonce))
unfolding replay_identity
replay_identity-binds a b r r' = (
  λ same.
      split_at b':' a.key_id b.key_id a.request_nonce b.request_nonce
        (word_free b':' a.key_id refl r.key) (word_free b':' b.key_id refl r'.key)
        (sym r.identity ∙ same ∙ r'.identity),
  λ (key, nonce). cc,
)

stamp_free : (s : Text) → canonical_integer s ≡ true → is_free b'\n' s ≡ true
stamp_free s h = digit_free s (canonical_integer-digits s h)

-- With the method and the path of commands.
signing_input-injective :
    (s s' n n' d d' : Text)
    → is_free b'\n' s ≡ true
    → is_free b'\n' s' ≡ true
    → is_free b'\n' n ≡ true
    → is_free b'\n' n' ≡ true
    → signing_input post commands_path s n d ≡ signing_input post commands_path s' n' d'
    → (s ≡ s') × (n ≡ n') × (d ≡ d')
unfolding signing_input is_free
signing_input-injective s s' n n' d d' f f' g g' same =
    let (_, after_method) = split_at b'\n' post post _ _ refl refl same in
    let (_, after_path) = split_at b'\n' commands_path commands_path _ _ refl refl after_method in
    let (stamp, after_stamp) = split_at b'\n' s s' _ _ f f' after_path in
    let (nonce, digest) = split_at b'\n' n n' d d' g g' after_stamp in (stamp, nonce, digest)

signing_input-binds :
    (a b : IngressEnvelope)
    → Reading a
    → Reading b
    → (a.signing_input ≡ b.signing_input) ↔ (
        (a.timestamp_unix_seconds ≡ b.timestamp_unix_seconds)
        × (a.request_nonce ≡ b.request_nonce)
        × (a.body_sha256 ≡ b.body_sha256))
signing_input-binds a b r r' = (forth, back)
  where
    forth :
        a.signing_input ≡ b.signing_input
        → (a.timestamp_unix_seconds ≡ b.timestamp_unix_seconds)
          × (a.request_nonce ≡ b.request_nonce)
          × (a.body_sha256 ≡ b.body_sha256)
    forth same =
        let (stamp, nonce, digest) =
          signing_input-injective r.stamp r'.stamp a.request_nonce b.request_nonce a.body_sha256
            b.body_sha256 (stamp_free r.stamp r.canonical) (stamp_free r'.stamp r'.canonical)
            (word_free b'\n' a.request_nonce refl r.nonce)
            (word_free b'\n' b.request_nonce refl r'.nonce) (sym r.signed ∙ same ∙ r'.signed) in
        (r.time ∙ ap (λ s. pos (big_int 0 s)) stamp ∙ sym r'.time, nonce, digest)

    back :
        (a.timestamp_unix_seconds ≡ b.timestamp_unix_seconds)
          × (a.request_nonce ≡ b.request_nonce)
          × (a.body_sha256 ≡ b.body_sha256)
        → a.signing_input ≡ b.signing_input
    back (time, nonce, digest) =
        let value : big_int 0 r.stamp ≡ big_int 0 r'.stamp = cc in
        let stamp : r.stamp ≡ r'.stamp =
          sym (decimal-big_int r.stamp r.canonical)
          ∙ ap decimal value
          ∙ decimal-big_int r'.stamp r'.canonical in
        r.signed ∙ rw (stamp, nonce, digest) refl ∙ sym r'.signed

-- Two envelopes that were read have one replay identity exactly when they have one key and one nonce,
-- and one signing input exactly when they have one timestamp, one nonce and one digest.
pub parse_ingress_envelope-binds :
    (h h' : Heap) (v v' : Value) (a b : IngressEnvelope)
    → parse_ingress_envelope h v ≡ ok a
    → parse_ingress_envelope h' v' ≡ ok b
    → ((a.replay_identity ≡ b.replay_identity)
        ↔ ((a.key_id ≡ b.key_id) × (a.request_nonce ≡ b.request_nonce)))
      × ((a.signing_input ≡ b.signing_input) ↔ (
          (a.timestamp_unix_seconds ≡ b.timestamp_unix_seconds)
          × (a.request_nonce ≡ b.request_nonce)
          × (a.body_sha256 ≡ b.body_sha256)))
parse_ingress_envelope-binds h h' v v' a b p q =
    let r = Reading-parse h v a p in
    let r' = Reading-parse h' v' b q in
    (replay_identity-binds a b r r', signing_input-binds a b r r')
