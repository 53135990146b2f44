-- ===== src/Webhook/Examples.antt =====
-- Runs on small tables of webhooks, and the theorems at those tables.
use mathlib.Core.Path.{subst}
use marginalis.Prelude.{
  Option, ℕ, ◌-◌, ◌*◌, ◌^◌, ◌≡◌, ◌≤◌, refl, [], ◌∷◌, none, some, false, ok, err, ◌==◌, ◌&&◌, All,
  arith, min, not, true, List,
}
use marginalis.Text.{Text, codes, ◌=t=◌}
use marginalis.Webhook.Store.{
  active, pending, timed_out, Subscription, Change, Delivery, Hooks, PendingDelivery, is_head,
}
use marginalis.Webhook.Claims.{
  is_due, sort_sequence, lease_rows, load_rows, claim_due_deliveries, record_delivered,
  record_failed, disable_exhausted_subscription,
}
use marginalis.Webhook.Owned.{retry_owned_head_delivery}
use marginalis.Webhook.Delivery.{
  webhook_backoff_ms, webhook_backoff_base_ms, webhook_backoff_max_ms, TickOutcome, record_attempt,
  deliver_all, webhook_delivery_tick,
}
use marginalis.Webhook.Backoff.{webhook_backoff_ms_lem}
use marginalis.Webhook.Claimed.{IsNext, claim_due_deliveries-IsNext}
use marginalis.Webhook.Exclusive.{claim_each, claim_due_deliveries_exclusive}
use marginalis.Webhook.Address.{Ipv4, v4, is_public_v4, is_public_webhook_address}
use marginalis.Webhook.Blocks.{address_number, in_any, refused_blocks, is_public_v4_lem}
use marginalis.Webhook.Destination.{
  Url, ipv4, WebhookDestination, IsSafe, is_allowed, validate_parsed, validate_webhook_destination,
  validate_webhook_destination-IsSafe, HasRange, host_literal,
}
use marginalis.Webhook.UseCases.{IsRefused, stranger-IsRefused}
use marginalis.Webhook.Calls.{Call, retries, step, run, delivered_once, record_attempt_exhausted}

-- What a run of the operations computes with.
running : ℕ
unfolding is_head is_due sort_sequence lease_rows load_rows claim_due_deliveries record_delivered
    record_failed disable_exhausted_subscription retry_owned_head_delivery webhook_backoff_ms
    record_attempt deliver_all webhook_delivery_tick step run
running = 0

abbrev hook : Subscription
hook = record {
  subscription_id = codes "sub";
  owner = 1;
  url = codes "https://receiver/hook";
  secret = codes "secret";
  event_kinds = codes "note.created" ∷ [];
  state = active;
  disabled_reason = none;
  created_at = 0;
  updated_at = 0;
  revision = 1;
}

abbrev change : ℕ → Change
change n = record {
  sequence = n;
  event_id = codes "event";
  kind = codes "note.created";
  target_id = codes "note";
  revision = 1;
  occurred_at = 10;
}

abbrev waiting : ℕ → ℕ → Delivery
waiting n attempts = record {
  subscription_id = codes "sub";
  event_sequence = n;
  state = pending;
  attempt_count = attempts;
  next_attempt_at = 10;
  lease_expires_at = none;
  last_failure = none;
  last_attempted_at = none;
}

-- Two events wait for one subscription; the first has failed nine times.
abbrev hooks : Hooks
hooks = record {
  subscriptions = hook ∷ [];
  deliveries = waiting 4 0 ∷ waiting 3 9 ∷ [];
  changes = change 3 ∷ change 4 ∷ [];
}

abbrev leased : Hooks
leased = record {
  subscriptions = hook ∷ [];
  deliveries = waiting 4 0 ∷ (record (waiting 3 9) { lease_expires_at = some 100 }) ∷ [];
  changes = change 3 ∷ change 4 ∷ [];
}

abbrev first : PendingDelivery
first = record {
  subscription_id = codes "sub";
  url = codes "https://receiver/hook";
  secret = codes "secret";
  attempt_count = 9;
  event = change 3;
}

claimed : claim_due_deliveries hooks 40 100 4 ≡ ok (leased, first ∷ [])
unfolding running
claimed = refl

claimed_nothing : claim_due_deliveries leased 99 159 4 ≡ ok (leased, [])
unfolding running
claimed_nothing = refl

abbrev second : PendingDelivery
second = record {
  subscription_id = codes "sub";
  url = codes "https://receiver/hook";
  secret = codes "secret";
  attempt_count = 0;
  event = change 4;
}

abbrev moved : Hooks
moved = run (record_delivered hooks (codes "sub") 3 41) (retries 1 (codes "sub") 42 ∷ [])

abbrev moved_leased : Hooks
moved_leased = step moved (Call.claims 50 110 4)

claimed_second : claim_due_deliveries moved 50 110 4 ≡ ok (moved_leased, second ∷ [])
unfolding running
claimed_second = refl

abbrev nothing : TickOutcome
nothing = record { delivered = []; failed = []; disabled = [] }

abbrev stopped : Hooks
stopped = (record_attempt leased nothing 50 first (err timed_out)).0

claimed_stopped : claim_due_deliveries stopped 9999999 99999999 4 ≡ ok (stopped, [])
unfolding running
claimed_stopped = refl

claim_due_deliveries-IsNext_example : IsNext hooks 40 (codes "sub") 3 × Unit {0}
claim_due_deliveries-IsNext_example =
    claim_due_deliveries-IsNext hooks 40 100 4 leased (first ∷ []) claimed

-- A claim in between takes nothing.
claimed_nothing_later :
    claim_due_deliveries
      (claim_each leased (record { time = 60; lease_until = 120; limit = 4 } ∷ []))
      99
      159
      4
    ≡ ok (leased, [])
unfolding running
claimed_nothing_later = refl

claim_due_deliveries_exclusive_example :
    All
      (λ p. All (λ (q : PendingDelivery). (q.subscription_id =t= p.subscription_id) ≡ false) [])
      (first ∷ [])
claim_due_deliveries_exclusive_example =
    claim_due_deliveries_exclusive hooks 40 100 4 leased (first ∷ [])
      (record { time = 60; lease_until = 120; limit = 4 } ∷ []) 99 159 4 leased [] claimed refl
      claimed_nothing_later (omega arith)

delivered_once_example :
    All (λ p. (p.subscription_id =t= codes "sub" && p.event.sequence == 3) ≡ false) (second ∷ [])
delivered_once_example =
    delivered_once hooks (codes "sub") 3 41 (retries 1 (codes "sub") 42 ∷ []) 50 110 4 moved_leased
      (second ∷ []) claimed_second

record_attempt_exhausted_example :
    All (λ (q : PendingDelivery). (q.subscription_id =t= codes "sub") ≡ false) []
record_attempt_exhausted_example =
    record_attempt_exhausted leased nothing 50 first timed_out 9999999 99999999 4 stopped []
      (omega arith) claimed_stopped

webhook_backoff_ms_lem_example :
    (webhook_backoff_ms 3 ≡ min (webhook_backoff_base_ms * 2 ^ (3 - 1)) webhook_backoff_max_ms)
    × (webhook_backoff_ms 3 ≤ webhook_backoff_ms 12)
    × (webhook_backoff_base_ms ≤ webhook_backoff_ms 3)
    × (webhook_backoff_ms 3 ≤ webhook_backoff_max_ms)
webhook_backoff_ms_lem_example = webhook_backoff_ms_lem 3 12 (omega arith)

-- The tenth failure in a row disables the subscription.
disables_at_ten :
    webhook_delivery_tick (λ url secret now text. err timed_out) (λ e. []) hooks 40
    ≡ ok (
      (record_attempt
          (record leased {
            deliveries =
                waiting 4 0 ∷ (record (waiting 3 9) { lease_expires_at = some 60040 }) ∷ [];
          })
          nothing
          40
          first
          (err timed_out)).0,
      record {
        delivered = [];
        failed = (codes "sub", timed_out) ∷ [];
        disabled = codes "sub" ∷ [];
      },
    )
unfolding running
disables_at_ten = refl

abbrev receiver : Ipv4
receiver = record { a = 203; b = 0; c = 112; d = 9 }

is_public_v4_lem_example :
    is_public_v4 receiver ≡ not (in_any (address_number 203 0 112 9) refused_blocks)
is_public_v4_lem_example =
    is_public_v4_lem receiver (omega arith) (omega arith) (omega arith) (omega arith)

-- An address of 0.0.0.0/8 counts as public.
this_network : is_public_webhook_address (v4 (record { a = 0; b = 1; c = 2; d = 3 })) ≡ true
unfolding is_public_webhook_address is_public_v4
this_network = refl

abbrev parsed_url : Url
parsed_url = record {
  scheme = codes "https";
  username = [];
  password = none;
  host_str = some (codes "203.0.112.9");
  host = some (ipv4 receiver);
  port = none;
  port_or_known_default = some 443;
}

abbrev destination : WebhookDestination
destination = record {
  host = codes "203.0.112.9";
  port = 443;
  exempt = false;
  literal = some (v4 receiver);
}

accepted :
    validate_webhook_destination
      (λ t. some parsed_url)
      (codes "https://203.0.112.9/hook")
      (codes "intern" ∷ [])
    ≡ ok destination
unfolding validate_webhook_destination validate_parsed is_allowed is_public_webhook_address
    is_public_v4
accepted = refl

abbrev allowed : List Text
allowed = codes "intern" ∷ []

abbrev any_url : Text → Option Url
any_url t = some parsed_url

any_url-HasRange :
    (url : Text) (parsed : Url) → any_url url ≡ some parsed → HasRange (host_literal parsed.host)
any_url-HasRange url parsed e =
    subst (λ u. HasRange (host_literal u.host)) (same _ _ e) (omega arith)
  where
    same : (x y : Url) → some x ≡ some y → x ≡ y
    same x y p = cc

validate_webhook_destination-IsSafe_example :
    (parsed : Url) × (any_url (codes "https://203.0.112.9/hook") ≡ some parsed)
    × IsSafe parsed allowed destination
validate_webhook_destination-IsSafe_example =
    validate_webhook_destination-IsSafe any_url (codes "https://203.0.112.9/hook") allowed
      destination (any_url-HasRange (codes "https://203.0.112.9/hook")) accepted

stranger-IsRefused_example :
    IsRefused (λ url secret now challenge. ok tt) hooks 2 (codes "sub") 40 (codes "token")
stranger-IsRefused_example =
    stranger-IsRefused (λ url secret now challenge. ok tt) hooks 2 (codes "sub") 40 (codes "token")
      refl
