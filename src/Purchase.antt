-- ===== src/Purchase.antt =====
-- packages/core/src/offering-purchase-lifecycle.ts: the purchase of note units under an issued quote.
-- The snapshot of a state is the quote itself, from which `issueState` copies five fields.
pub mod Tests
pub mod Payment
pub mod Paths
use tool.Common.{
  ℕ, Bool, true, false, not, Option, none, some, Result, ok, err, Error, type_error, ◌>>=◌, ◌>>◌,
  if◌then◌else◌,
}
use tool.Common.Int.{ℤ}
use tool.Common.Text.{Text}
use tool.Js.{Value, string}
use tool.Registry.{Registry, get}
use tool.Requirements.{OfferingRequirementsQuote, is_offering_requirements_quote_active}
use tool.Lifecycle.{Handle, primitive, reference, Store, issue_state, transition}

pub data StateName : Type 0 where
  draft awaiting_payment expired payment_submitted payment_rejected payment_outcome_unknown
        payment_confirmed allocation_pending allocation_submitted allocation_outcome_unknown
        refund_required refund_submitted refund_outcome_unknown complete refunded
        manual_reconciliation :
      StateName

pub record OfferingPurchaseSnapshot : Type 0 where
  pub terms_version : Text
  pub requested_units : ℤ
  pub payment_tinybars : ℤ
  pub requirements_digest : Text
  pub expires_at : Text

-- The fields of a state, besides its name.
unfoldable pub snapshot_fields : OfferingRequirementsQuote → OfferingPurchaseSnapshot
snapshot_fields quote = record {
  terms_version = quote.terms_version;
  requested_units = quote.requested_units;
  payment_tinybars = quote.payment_tinybars;
  requirements_digest = quote.requirements_digest;
  expires_at = quote.expires_at;
}

pub data Event : Type 0 where
  open_event expire submits_payment : (observed_at : Value) → Event
  rejects_payment loses_payment confirms_payment : Event
  awaits_allocation submits_allocation loses_allocation : Event
  requires_refund submits_refund loses_refund : Event
  completes refunds reconciles : Event

abbrev pub invalid_transition : Error
invalid_transition = type_error "invalid offering purchase transition"

abbrev pub invalid_quote : Error
invalid_quote = type_error "invalid offering purchase quote"

unfoldable pub requires_active_quote : OfferingRequirementsQuote → Value → Result Bool
requires_active_quote quote (string observed_at) =
    is_offering_requirements_quote_active quote observed_at
requires_active_quote quote _ = ok false

unfoldable pub requires_expired_quote : OfferingRequirementsQuote → Value → Result Bool
requires_expired_quote quote (string observed_at) =
    is_offering_requirements_quote_active quote observed_at >>= λ active. ok (not active)
requires_expired_quote quote _ = ok false

abbrev accept_if : StateName → Bool → Result StateName
accept_if name true = ok name
accept_if name false = err invalid_transition

unfoldable pub next_state_name : StateName → Event → OfferingRequirementsQuote → Result StateName
next_state_name draft (open_event at) quote =
    requires_active_quote quote at >>= accept_if awaiting_payment
next_state_name awaiting_payment (expire at) quote =
    requires_expired_quote quote at >>= accept_if expired
next_state_name awaiting_payment (submits_payment at) quote =
    requires_active_quote quote at >>= accept_if payment_submitted
next_state_name payment_submitted rejects_payment quote = ok payment_rejected
next_state_name payment_submitted loses_payment quote = ok payment_outcome_unknown
next_state_name payment_submitted confirms_payment quote = ok payment_confirmed
next_state_name payment_confirmed awaits_allocation quote = ok allocation_pending
next_state_name allocation_pending submits_allocation quote = ok allocation_submitted
next_state_name allocation_pending requires_refund quote = ok refund_required
next_state_name allocation_pending reconciles quote = ok manual_reconciliation
next_state_name allocation_submitted completes quote = ok complete
next_state_name allocation_submitted loses_allocation quote = ok allocation_outcome_unknown
next_state_name refund_required submits_refund quote = ok refund_submitted
next_state_name refund_required reconciles quote = ok manual_reconciliation
next_state_name refund_submitted refunds quote = ok refunded
next_state_name refund_submitted loses_refund quote = ok refund_outcome_unknown
next_state_name _ _ quote = err invalid_transition

abbrev pub Purchases : Type 0
Purchases = Store StateName OfferingRequirementsQuote

-- The quote must be one that the quotes' module has issued.
unfoldable pub create_offering_purchase :
    Registry OfferingRequirementsQuote → Purchases → Handle → Purchases × Result ℕ
create_offering_purchase quotes purchases primitive = (purchases, err invalid_quote)
create_offering_purchase quotes purchases (reference q) = elim (get quotes q) [
  | none ↦ (purchases, err invalid_quote)
  | some quote ↦ let (purchases', r) = issue_state draft quote purchases in (purchases', ok r)
]

unfoldable pub transition_offering_purchase : Purchases → Handle → Event → Purchases × Result ℕ
transition_offering_purchase = transition next_state_name invalid_transition
