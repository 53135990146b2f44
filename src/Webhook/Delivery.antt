-- ===== src/Webhook/Delivery.antt =====
-- crates/marginalis-application/src/webhooks/delivery.rs: the wait after a failure, and one tick of the
-- worker. The sender and the JSON text of an event are parameters.
use marginalis.Prelude.{
  ℕ, ◌+◌, ◌-◌, ◌*◌, ◌^◌, List, [], ◌∷◌, ◌++◌, min, leb, if◌then◌else◌, Result, ok, err, ◌>>=◌,
}
use marginalis.Text.{Text}
use marginalis.Webhook.Store.{Change, Hooks, PendingDelivery, DeliveryFailure, StorageError}
use marginalis.Webhook.Claims.{
  claim_due_deliveries, record_delivered, record_failed, disable_exhausted_subscription,
}

abbrev pub webhook_max_attempts : ℕ
webhook_max_attempts = 10

abbrev pub webhook_backoff_base_ms : ℕ
webhook_backoff_base_ms = 5000

abbrev pub webhook_backoff_max_ms : ℕ
webhook_backoff_max_ms = 3600000

abbrev pub webhook_lease_ms : ℕ
webhook_lease_ms = 60000

abbrev pub webhook_delivery_batch : ℕ
webhook_delivery_batch = 4

-- `i64::saturating_add` and `i64::saturating_mul` of numbers that are not negative.
abbrev pub saturating_i64 : ℕ → ℕ
saturating_i64 n = min n 9223372036854775807

abbrev pub saturating_u32 : ℕ → ℕ
saturating_u32 n = min n 4294967295

-- `webhook_backoff_ms`.
unfoldable pub webhook_backoff_ms : ℕ → ℕ
webhook_backoff_ms attempts =
    let exponent = min (attempts - 1) 30 in
    min (saturating_i64 (webhook_backoff_base_ms * 2 ^ exponent)) webhook_backoff_max_ms

-- `WebhookTickOutcome`.
pub record TickOutcome : Type 0 where
  pub delivered : List Text
  pub failed : List (Text × DeliveryFailure)
  pub disabled : List Text

abbrev pub disable_if_exhausted : Hooks → ℕ → Text → ℕ → Hooks
disable_if_exhausted h now id attempts =
    if leb webhook_max_attempts attempts then disable_exhausted_subscription h id now else h

abbrev pub push_if_exhausted : Text → ℕ → List Text → List Text
push_if_exhausted id attempts ids =
    if leb webhook_max_attempts attempts then ids ++ id ∷ [] else ids

-- One delivery of the loop: what the sender answered is recorded.
unfoldable pub record_attempt :
    Hooks
    → TickOutcome
    → ℕ
    → PendingDelivery
    → Result DeliveryFailure (Unit {0})
    → Hooks × TickOutcome
record_attempt h out now p (ok u) = (
  record_delivered h p.subscription_id p.event.sequence now,
  record out { delivered = out.delivered ++ p.subscription_id ∷ [] },
)
record_attempt h out now p (err failure) =
    let attempts = saturating_u32 (p.attempt_count + 1) in
    let next = saturating_i64 (now + webhook_backoff_ms attempts) in
    (
      disable_if_exhausted
          (record_failed h p.subscription_id p.event.sequence failure attempts next now) now
          p.subscription_id attempts,
      record out {
        failed = out.failed ++ (p.subscription_id, failure) ∷ [];
        disabled = push_if_exhausted p.subscription_id attempts out.disabled;
      },
    )

module _ (deliver : Text → Text → ℕ → Text → Result DeliveryFailure (Unit {0}))
    (body : Change → Text) where
  unfoldable pub deliver_all : Hooks → TickOutcome → ℕ → List PendingDelivery → Hooks × TickOutcome
  deliver_all h out now [] = (h, out)
  deliver_all h out now (p ∷ ps) =
      let (h', out') = record_attempt h out now p (deliver p.url p.secret now (body p.event)) in
      deliver_all h' out' now ps

  -- `webhook_delivery_tick`.
  unfoldable pub webhook_delivery_tick : Hooks → ℕ → Result StorageError (Hooks × TickOutcome)
  webhook_delivery_tick h now =
      claim_due_deliveries h now (saturating_i64 (now + webhook_lease_ms)) webhook_delivery_batch
      >>= λ r. ok (deliver_all r.0 (record { delivered = []; failed = []; disabled = [] }) now r.1)
