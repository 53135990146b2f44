-- ===== src/Webhook/Store.antt =====
-- crates/marginalis-sqlite/src/webhooks.rs: the tables of subscriptions, deliveries and changes, and the
-- statements on them.
use marginalis.Prelude.{ℕ, Bool, true, false, not, ◌&&◌, List, Option, ltb, ◌==◌}
use marginalis.Text.{Text, ◌=t=◌}
use marginalis.Tables.{exists_where}

pub data SubscriptionState : Type 0 where
  pending_challenge active disabled : SubscriptionState

pub data DeliveryState : Type 0 where
  pending delivered discarded : DeliveryState

-- `WebhookDeliveryFailure`.
pub data DeliveryFailure : Type 0 where
  non_success_status connect_failed timed_out destination_rejected : DeliveryFailure

-- `StorageError`: the kinds that the statements of this file bring about.
pub data StorageError : Type 0 where
  row_not_found conflict : StorageError

pub record Subscription : Type 0 where
  pub subscription_id : Text
  pub owner : ℕ
  pub url : Text
  pub secret : Text
  pub event_kinds : List Text
  pub state : SubscriptionState
  pub disabled_reason : Option Text
  pub created_at : ℕ
  pub updated_at : ℕ
  pub revision : ℕ

-- A row of `domain_changes`.
pub record Change : Type 0 where
  pub sequence : ℕ
  pub event_id : Text
  pub kind : Text
  pub target_id : Text
  pub revision : ℕ
  pub occurred_at : ℕ

pub record Delivery : Type 0 where
  pub subscription_id : Text
  pub event_sequence : ℕ
  pub state : DeliveryState
  pub attempt_count : ℕ
  pub next_attempt_at : ℕ
  pub lease_expires_at : Option ℕ
  pub last_failure : Option DeliveryFailure
  pub last_attempted_at : Option ℕ

pub record Hooks : Type 0 where
  pub subscriptions : List Subscription
  pub deliveries : List Delivery
  pub changes : List Change

-- `WebhookPendingDelivery`, with `WebhookEvent` as the row of the change.
pub record PendingDelivery : Type 0 where
  pub subscription_id : Text
  pub url : Text
  pub secret : Text
  pub attempt_count : ℕ
  pub event : Change

abbrev pub is_pending : DeliveryState → Bool
is_pending pending = true
is_pending delivered = false
is_pending discarded = false

abbrev pub is_active : SubscriptionState → Bool
is_active pending_challenge = false
is_active active = true
is_active disabled = false

abbrev pub is_disabled : SubscriptionState → Bool
is_disabled pending_challenge = false
is_disabled active = false
is_disabled disabled = true

abbrev pub pending_of : Text → Delivery → Bool
pending_of id d = d.subscription_id =t= id && is_pending d.state

abbrev pub pending_at : Text → ℕ → Delivery → Bool
pending_at id sequence d =
    d.subscription_id =t= id && d.event_sequence == sequence && is_pending d.state

-- `event_sequence = (SELECT MIN(head.event_sequence) …)`: no pending row of the subscription is earlier.
unfoldable pub is_head : List Delivery → Delivery → Bool
is_head deliveries d =
    is_pending d.state
    && not (
        exists_where (λ e. pending_of d.subscription_id e && ltb e.event_sequence d.event_sequence)
          deliveries)
