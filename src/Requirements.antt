-- ===== src/Requirements.antt =====
-- packages/core/src/requirements-offering-quote.ts: the canonical text of the requirements, its
-- digest and the quotes that are bound to it. Requirements/Captured, Capture and Emit hold the
-- reading and the printing.
--
-- SHA-256 is the host's (`crypto.subtle`): the parameter `sha256`, which is `none` where the host has
-- none. So is `String(value)` of a number, `number_text`.
pub mod Tests
pub mod Captured
pub mod Keys
pub mod Capture
pub mod Emit
pub mod Refusal
pub mod Bytes
pub mod Utf8
pub mod Print
pub mod Writes
pub mod Canonical
pub mod KeyOrder
use tool.Common.{
  ℕ, ◌+◌, ◌*◌, ◌-◌, ◌/◌, ◌%◌, Bool, true, false, ◌&&◌, ◌||◌, Option, none, some, List, [], ◌∷◌,
  ◌++◌, ltb, leb, if◌then◌else◌, Result, ok, err, type_error, ◌>>=◌, ◌>>◌,
}
use tool.Common.Int.{ℤ}
use tool.Common.Text.{Text, ◌===◌}
use tool.Js.{Number, Value, Heap}
use tool.Timestamp.{parse_text}
use tool.Economics.{OfferingTerms, calculate_allocation}
use tool.Registry.{Registry, issue}
use Keys.{is_high_surrogate, is_low_surrogate}
use Capture.{capture_requirements}
use Emit.{new_emitter, emit_captured_value, finish_canonical_emitter, hexadecimal_digit}

-- The UTF-8 bytes of a code unit outside a surrogate pair; a surrogate is replaced by U+FFFD.
unfoldable pub encode_unit : ℕ → List ℕ
encode_unit c =
    if leb c 0x7f
    then c ∷ []
    else if leb c 0x7ff
    then (192 + c / 64) ∷ (128 + c % 64) ∷ []
    else if is_high_surrogate c || is_low_surrogate c
    then 239 ∷ 191 ∷ 189 ∷ []
    else (224 + c / 4096) ∷ (128 + c / 64 % 64) ∷ (128 + c % 64) ∷ []

abbrev pub encode_pair : ℕ → ℕ → List ℕ
encode_pair c d =
    let point = 65536 + (c - 0xd800) * 1024 + (d - 0xdc00) in
    (240 + point / 262144)
    ∷ (128 + point / 4096 % 64)
    ∷ (128 + point / 64 % 64)
    ∷ (128 + point % 64)
    ∷ []

-- `new TextEncoder().encode`
unfoldable pub utf8_encode : Text → List ℕ
unfolding encode_unit
utf8_encode [] = []
utf8_encode (c ∷ []) = encode_unit c
utf8_encode (c ∷ d ∷ s) =
    let pair = encode_pair c d ++ utf8_encode s in
    let single = encode_unit c ++ utf8_encode (d ∷ s) in
    if is_high_surrogate c && is_low_surrogate d then pair else single

unfoldable pub hexadecimal : List ℕ → Text
hexadecimal [] = []
hexadecimal (b ∷ bs) = hexadecimal_digit (b / 16) ∷ hexadecimal_digit (b % 16) ∷ hexadecimal bs

pub record OfferingRequirementsQuoteInput : Type 0 where
  pub expected_terms_version : Text
  pub requested_units : ℤ
  pub confirmed_allocated_units : ℤ
  pub requirements : Value
  pub expires_at : Text

pub record OfferingRequirementsQuote : Type 0 where
  pub terms_version : Text
  pub requested_units : ℤ
  pub payment_tinybars : ℤ
  pub remaining_capacity_units : ℤ
  pub requirements_digest : Text
  pub expires_at : Text

pub record Host : Type 0 where
  pub number_text : Number → Text
  pub sha256 : Option (List ℕ → List ℕ)

module _ (host : Host) where
  unfoldable pub canonicalize_captured : Captured.Captured → Result Text
  unfolding emit_captured_value finish_canonical_emitter
  canonicalize_captured captured = do
    emitter ← emit_captured_value host.number_text captured new_emitter
    ok (finish_canonical_emitter emitter)

  unfoldable pub canonicalize_requirements : Heap → Value → Result Text
  unfolding capture_requirements canonicalize_captured
  canonicalize_requirements h input = do
    captured ← capture_requirements h input
    canonicalize_captured captured

  unfoldable pub canonical_requirements_digest : Text → Result Text
  unfolding hexadecimal utf8_encode
  canonical_requirements_digest canonical = elim host.sha256 [
    | none ↦ err (type_error "Web Crypto SHA-256 is unavailable")
    | some digest ↦ ok (hexadecimal (digest (utf8_encode canonical)))
  ]

  unfoldable pub sha256_requirements : Heap → Value → Result Text
  unfolding canonicalize_requirements canonical_requirements_digest
  sha256_requirements h input = do
    canonical ← canonicalize_requirements h input
    canonical_requirements_digest canonical

  unfoldable pub canonical_expiry : Text → Result Text
  unfolding parse_text
  canonical_expiry value = parse_text value >>= λ time. ok value

  unfoldable pub create_quote :
      Heap → OfferingTerms → OfferingRequirementsQuoteInput → Result OfferingRequirementsQuote
  unfolding calculate_allocation canonical_expiry canonicalize_requirements
      canonical_requirements_digest
  create_quote h terms input = do
    allocation ← calculate_allocation terms (record {
      expected_terms_version = input.expected_terms_version;
      requested_units = input.requested_units;
      confirmed_allocated_units = input.confirmed_allocated_units;
    })
    expires_at ← canonical_expiry input.expires_at
    canonical ← canonicalize_requirements h input.requirements
    digest ← canonical_requirements_digest canonical
    ok (record {
      terms_version = allocation.terms_version;
      requested_units = allocation.requested_units;
      payment_tinybars = allocation.payment_tinybars;
      remaining_capacity_units = allocation.remaining_capacity_units;
      requirements_digest = digest;
      expires_at = expires_at;
    })

  -- The quotes that have been issued, by reference.
  abbrev pub Quotes : Type 0
  Quotes = Registry OfferingRequirementsQuote

  unfoldable pub create_offering_requirements_quote :
      Heap → Quotes → OfferingTerms → OfferingRequirementsQuoteInput → Result (Quotes × ℕ)
  unfolding create_quote
  create_offering_requirements_quote h quotes terms input = do
    quote ← create_quote h terms input
    ok (issue quote quotes)

  unfoldable pub matches_quoted_requirements :
      Heap → OfferingRequirementsQuote → Value → Result Bool
  unfolding sha256_requirements ◌===◌
  matches_quoted_requirements h quote requirements = do
    digest ← sha256_requirements h requirements
    ok (quote.requirements_digest === digest)

unfoldable pub is_offering_requirements_quote_active :
    OfferingRequirementsQuote → Text → Result Bool
unfolding parse_text
is_offering_requirements_quote_active quote observed_at = do
  observed ← parse_text observed_at
  expires ← parse_text quote.expires_at
  ok (ltb observed expires)
