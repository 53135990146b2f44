-- ===== src/Webhook/Owned.antt =====
-- `WebhookSubscriptionRepository` of crates/marginalis-sqlite/src/webhooks.rs: what an owner does to a
-- subscription.
use marginalis.Prelude.{
  ℕ, suc, Bool, true, false, ◌&&◌, List, Option, none, some, ◌==◌, if◌then◌else◌, Result, ok, ◌>>=◌,
}
use marginalis.Text.{Text, codes, ◌=t=◌}
use marginalis.Tables.{update_where, delete_where, exists_where, count_where, insert_row}
use marginalis.Webhook.Store.{
  pending_challenge, active, discarded, StorageError, conflict, Subscription, Delivery, Hooks,
  is_disabled, is_head,
}

abbrev pub owned_by : ℕ → Text → Subscription → Bool
owned_by owner id s = s.subscription_id =t= id && s.owner == owner

-- `create_owned_subscription`.
unfoldable pub create_owned_subscription :
    Hooks → ℕ → Text → Text → List Text → Text → ℕ → Result StorageError Hooks
create_owned_subscription h owner id url kinds secret now = do
  subscriptions ←
      insert_row conflict (λ s. s.subscription_id =t= id)
        (record {
          subscription_id = id;
          owner = owner;
          url = url;
          secret = secret;
          event_kinds = kinds;
          state = pending_challenge;
          disabled_reason = none;
          created_at = now;
          updated_at = now;
          revision = 1;
        })
        h.subscriptions
  ok (record h { subscriptions = subscriptions })

abbrev pub activate : ℕ → Subscription → Subscription
activate now s = record s {
  state = active;
  disabled_reason = none;
  updated_at = now;
  revision = suc s.revision;
}

-- `activate_owned_subscription`, with whether it changed a row.
unfoldable pub activate_owned_subscription : Hooks → ℕ → Text → ℕ → Hooks × Bool
activate_owned_subscription h owner id now = (
  record h { subscriptions = update_where (owned_by owner id) (activate now) h.subscriptions },
  count_where (owned_by owner id) h.subscriptions == 1,
)

-- `delete_owned_subscription`: its deliveries go with it (`ON DELETE CASCADE`).
unfoldable pub delete_owned_subscription : Hooks → ℕ → Text → Hooks × Bool
delete_owned_subscription h owner id = (
  record h {
    subscriptions = delete_where (owned_by owner id) h.subscriptions;
    deliveries =
        if exists_where (owned_by owner id) h.subscriptions
        then delete_where (λ d. d.subscription_id =t= id) h.deliveries
        else h.deliveries;
  },
  count_where (owned_by owner id) h.subscriptions == 1,
)

abbrev pub renew : Text → ℕ → Subscription → Subscription
renew secret now s = record s { secret = secret; updated_at = now; revision = suc s.revision }

-- `replace_owned_secret`.
unfoldable pub replace_owned_secret : Hooks → ℕ → Text → Text → ℕ → Hooks × Bool
replace_owned_secret h owner id secret now = (
  record h { subscriptions = update_where (owned_by owner id) (renew secret now) h.subscriptions },
  count_where (owned_by owner id) h.subscriptions == 1,
)

abbrev pub exhausted : Option Text → Bool
exhausted none = false
exhausted (some reason) = reason =t= codes "delivery_exhausted"

-- The statement that both repairs end with.
abbrev pub reactivate : Text → ℕ → List Subscription → List Subscription
reactivate id now =
    update_where
      (λ s. s.subscription_id =t= id && is_disabled s.state && exhausted s.disabled_reason)
      (activate now)

abbrev pub head_of : Text → List Delivery → Delivery → Bool
head_of id deliveries d = d.subscription_id =t= id && is_head deliveries d

-- `retry_owned_head_delivery`.
unfoldable pub retry_owned_head_delivery : Hooks → ℕ → Text → ℕ → Hooks × Bool
retry_owned_head_delivery h owner id now =
    if exists_where (owned_by owner id) h.subscriptions
    then (
      record h {
        deliveries =
            update_where (head_of id h.deliveries)
              (λ d. record d { attempt_count = 0; next_attempt_at = now; lease_expires_at = none })
              h.deliveries;
        subscriptions = reactivate id now h.subscriptions;
      },
      true,
    )
    else (h, false)

abbrev pub discard : ℕ → Delivery → Delivery
discard now d = record d {
  state = discarded;
  lease_expires_at = none;
  last_attempted_at = some now;
}

-- `discard_owned_head_delivery`.
unfoldable pub discard_owned_head_delivery : Hooks → ℕ → Text → ℕ → Hooks × Bool
discard_owned_head_delivery h owner id now =
    if exists_where (owned_by owner id) h.subscriptions
    then (
      record h {
        deliveries = update_where (head_of id h.deliveries) (discard now) h.deliveries;
        subscriptions = reactivate id now h.subscriptions;
      },
      true,
    )
    else (h, false)
