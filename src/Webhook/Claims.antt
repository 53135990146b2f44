-- ===== src/Webhook/Claims.antt =====
-- `WebhookDeliveryRepository` of crates/marginalis-sqlite/src/webhooks.rs: the claim of deliveries that
-- are due, and the record of an attempt.
use marginalis.Prelude.{
  ℕ, suc, Bool, true, ◌&&◌, List, [], ◌∷◌, Option, none, some, ltb, leb, ◌^◌, ◌==◌, if◌then◌else◌,
  Result, ok, ◌>>=◌, ok_or, take,
}
use marginalis.Text.{Text, codes, ◌=t=◌}
use marginalis.Tables.{find_where, update_where, select_where, exists_where, count_where}
use marginalis.Webhook.Store.{
  disabled, delivered, DeliveryFailure, StorageError, row_not_found, Subscription, Delivery, Hooks,
  PendingDelivery, is_pending, is_active, pending_at, is_head,
}

-- `lease_expires_at_ms IS NULL OR lease_expires_at_ms <= ?`.
abbrev pub lease_over : ℕ → Option ℕ → Bool
lease_over now none = true
lease_over now (some t) = leb t now

abbrev pub active_id : Text → Subscription → Bool
active_id id s = s.subscription_id =t= id && is_active s.state

unfoldable pub is_due : Hooks → ℕ → Delivery → Bool
is_due h now d =
    is_pending d.state
    && exists_where (active_id d.subscription_id) h.subscriptions
    && leb d.next_attempt_at now
    && lease_over now d.lease_expires_at
    && is_head h.deliveries d

-- `ORDER BY event_sequence`, where rows with the same sequence keep the order of the table.
abbrev pub insert_sorted : Delivery → List Delivery → List Delivery
insert_sorted d [] = d ∷ []
insert_sorted d (e ∷ es) =
    let rest = insert_sorted d es in
    if leb d.event_sequence e.event_sequence then d ∷ e ∷ es else e ∷ rest

unfoldable pub sort_sequence : List Delivery → List Delivery
sort_sequence [] = []
sort_sequence (d ∷ ds) = insert_sorted d (sort_sequence ds)

abbrev pub lease : ℕ → Delivery → Delivery
lease until d = record d { lease_expires_at = some until }

-- The first loop of `claim_due_deliveries`: the leased table, and the claimed keys.
unfoldable pub lease_rows : ℕ → List Delivery → List Delivery → List Delivery × List (Text × ℕ)
lease_rows until [] table = (table, [])
lease_rows until (d ∷ ds) table =
    let t = pending_at d.subscription_id d.event_sequence in
    let (rest, claimed) = lease_rows until ds (update_where t (lease until) table) in
    (
      rest,
      if count_where t table == 1 then (d.subscription_id, d.event_sequence) ∷ claimed else claimed,
    )

abbrev pub at : Text → ℕ → Delivery → Bool
at id sequence d = d.subscription_id =t= id && d.event_sequence == sequence

-- `u32::try_from(..).unwrap_or(0)`.
abbrev pub u32_or_zero : ℕ → ℕ
u32_or_zero n = if ltb n (2 ^ 32) then n else 0

-- The second loop: the joined rows of the claimed keys.
unfoldable pub load_rows : Hooks → List (Text × ℕ) → Result StorageError (List PendingDelivery)
load_rows h [] = ok []
load_rows h ((id, sequence) ∷ keys) = do
  d ← ok_or (find_where (at id sequence) h.deliveries) row_not_found
  s ← ok_or (find_where (λ s. s.subscription_id =t= id) h.subscriptions) row_not_found
  e ← ok_or (find_where (λ e. e.sequence == sequence) h.changes) row_not_found
  rest ← load_rows h keys
  ok (
      record {
        subscription_id = id;
        url = s.url;
        secret = s.secret;
        attempt_count = u32_or_zero d.attempt_count;
        event = e;
      }
      ∷ rest)

-- `claim_due_deliveries`.
unfoldable pub claim_due_deliveries :
    Hooks → ℕ → ℕ → ℕ → Result StorageError (Hooks × List PendingDelivery)
claim_due_deliveries h now lease_until limit =
    let rows = take limit (sort_sequence (select_where (is_due h now) h.deliveries)) in
    let (deliveries, claimed) = lease_rows lease_until rows h.deliveries in
    let leased = record h { deliveries = deliveries } in
    load_rows leased claimed >>= λ ds. ok (leased, ds)

-- `record_delivered`.
unfoldable pub record_delivered : Hooks → Text → ℕ → ℕ → Hooks
record_delivered h id sequence now = record h {
  deliveries =
      update_where (pending_at id sequence)
        (λ d. record d {
          state = delivered;
          lease_expires_at = none;
          last_failure = none;
          last_attempted_at = some now;
        })
        h.deliveries;
}

-- `record_failed`.
unfoldable pub record_failed : Hooks → Text → ℕ → DeliveryFailure → ℕ → ℕ → ℕ → Hooks
record_failed h id sequence failure attempts next_attempt_at now = record h {
  deliveries =
      update_where (pending_at id sequence)
        (λ d. record d {
          attempt_count = attempts;
          next_attempt_at = next_attempt_at;
          lease_expires_at = none;
          last_failure = some failure;
          last_attempted_at = some now;
        })
        h.deliveries;
}

-- `disable_exhausted_subscription`.
unfoldable pub disable_exhausted_subscription : Hooks → Text → ℕ → Hooks
disable_exhausted_subscription h id now = record h {
  subscriptions =
      update_where (active_id id)
        (λ s. record s {
          state = disabled;
          disabled_reason = some (codes "delivery_exhausted");
          updated_at = now;
          revision = suc s.revision;
        })
        h.subscriptions;
}
