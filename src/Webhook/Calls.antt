-- ===== src/Webhook/Calls.antt =====
-- Histories of calls on the tables of webhooks.
use mathlib.Core.Path.{subst}
use marginalis.Prelude.{
  ℕ, ◌+◌, ◌≤◌, ◌≡◌, refl, sym, ap, ◌∙◌, Bool, true, false, ◌&&◌, ◌==◌, leb, Bool-cases, inl, inr,
  List, [], ◌∷◌, arith, All, Result, ok, err,
}
use marginalis.Text.{Text, ◌=t=◌}
use marginalis.Text.Equality.{=t=-eq}
use marginalis.Tables.{
  update_where, exists_where, update_where-All, delete_where-All, All-mono, All-trivial,
  exists_where-All,
}
use marginalis.Webhook.Store.{
  Delivery, Hooks, PendingDelivery, DeliveryFailure, StorageError, pending_at,
}
use marginalis.Webhook.Claims.{
  active_id, is_due, lease_rows, claim_due_deliveries, record_delivered, record_failed,
  disable_exhausted_subscription,
}
use marginalis.Webhook.Owned.{
  create_owned_subscription, activate_owned_subscription, delete_owned_subscription,
  replace_owned_secret, retry_owned_head_delivery, discard_owned_head_delivery, owned_by, head_of,
  discard,
}
use marginalis.Webhook.Delivery.{
  record_attempt, TickOutcome, saturating_u32, saturating_i64, webhook_backoff_ms,
  webhook_max_attempts, disable_if_exhausted,
}
use marginalis.Webhook.Order.{
  due_rows, due_rows-All, lease_rows-keys, lease_rows-All, load_rows-All,
}
use marginalis.Webhook.Claimed.{claim_due_deliveries-Claimed, claim_due_deliveries-IsNext, IsNext}

pub data Call : Type 0 where
  claims : ℕ → ℕ → ℕ → Call
  delivers : Text → ℕ → ℕ → Call
  fails : Text → ℕ → DeliveryFailure → ℕ → ℕ → ℕ → Call
  disables : Text → ℕ → Call
  creates : ℕ → Text → Text → List Text → Text → ℕ → Call
  activates : ℕ → Text → ℕ → Call
  deletes : ℕ → Text → Call
  replaces : ℕ → Text → Text → ℕ → Call
  retries : ℕ → Text → ℕ → Call
  discards : ℕ → Text → ℕ → Call

abbrev pub after_claim : Hooks → Result StorageError (Hooks × List PendingDelivery) → Hooks
after_claim h (err x) = h
after_claim h (ok (h', ds)) = h'

abbrev pub after_create : Hooks → Result StorageError Hooks → Hooks
after_create h (err x) = h
after_create h (ok h') = h'

-- A call that fails is rolled back.
unfoldable pub step : Hooks → Call → Hooks
step h (claims now until limit) = after_claim h (claim_due_deliveries h now until limit)
step h (delivers id sequence now) = record_delivered h id sequence now
step h (fails id sequence failure attempts next now) =
    record_failed h id sequence failure attempts next now
step h (disables id now) = disable_exhausted_subscription h id now
step h (creates owner id url kinds secret now) =
    after_create h (create_owned_subscription h owner id url kinds secret now)
step h (activates owner id now) = (activate_owned_subscription h owner id now).0
step h (deletes owner id) = (delete_owned_subscription h owner id).0
step h (replaces owner id secret now) = (replace_owned_secret h owner id secret now).0
step h (retries owner id now) = (retry_owned_head_delivery h owner id now).0
step h (discards owner id now) = (discard_owned_head_delivery h owner id now).0

unfoldable pub run : Hooks → List Call → Hooks
run h [] = h
run h (c ∷ cs) = run (step h c) cs

-- The event does not wait for the subscription.
abbrev pub IsDone : Text → ℕ → Hooks → Type 0
IsDone id sequence h = All (λ d. pending_at id sequence d ≡ false) h.deliveries

updated :
    (id : Text) (sequence : ℕ) (t : Delivery → Bool) (f : Delivery → Delivery) (ds : List Delivery)
    → ((d : Delivery) → pending_at id sequence d ≡ false → pending_at id sequence (f d) ≡ false)
    → All (λ d. pending_at id sequence d ≡ false) ds
    → All (λ d. pending_at id sequence d ≡ false) (update_where t f ds)
updated id sequence t f ds h a = update_where-All _ _ t f (λ d q _. h d q) (λ d q _. q) ds a

-- Recording a delivery ends the wait.
record_delivered-IsDone :
    (h : Hooks) (id : Text) (sequence now : ℕ)
    → IsDone id sequence (record_delivered h id sequence now)
unfolding record_delivered
record_delivered-IsDone h id sequence now =
    update_where-All (λ _. Unit {0}) (λ d. pending_at id sequence d ≡ false)
      (pending_at id sequence) _ (λ d _ _. ground arith) (λ d _ q. q) h.deliveries
      (All-trivial _ (λ _. tt) h.deliveries)

claim-IsDone :
    (h : Hooks) (id : Text) (sequence now until limit : ℕ)
    (r : Result StorageError (Hooks × List PendingDelivery))
    → claim_due_deliveries h now until limit ≡ r
    → IsDone id sequence h
    → IsDone id sequence (after_claim h r)
claim-IsDone h id sequence now until limit (err x) e v = v
claim-IsDone h id sequence now until limit (ok (h', ds)) e v =
    subst (All (λ d. pending_at id sequence d ≡ false))
      (sym (claim_due_deliveries-Claimed h now until limit h' ds e).table)
      (lease_rows-All (λ d. pending_at id sequence d ≡ false) until (λ d q. q)
        (due_rows h now limit) h.deliveries v)

create-IsDone :
    (h : Hooks) (id : Text) (sequence owner : ℕ) (new url : Text) (kinds : List Text)
    (secret : Text) (now : ℕ)
    → IsDone id sequence h
    → IsDone id sequence
        (after_create h (create_owned_subscription h owner new url kinds secret now))
unfolding create_owned_subscription
create-IsDone h id sequence owner new url kinds secret now v =
    elim (Bool-cases (exists_where (λ s. s.subscription_id =t= new) h.subscriptions)) [
      | inl e ↦ rw (e, create_owned_subscription) v
      | inr e ↦ rw (e, create_owned_subscription) v
    ]

delete-IsDone :
    (h : Hooks) (id : Text) (sequence owner : ℕ) (old : Text)
    → IsDone id sequence h
    → IsDone id sequence (delete_owned_subscription h owner old).0
unfolding delete_owned_subscription
delete-IsDone h id sequence owner old v =
    elim (Bool-cases (exists_where (owned_by owner old) h.subscriptions)) [
      | inl e ↦
          rw (e, delete_owned_subscription)
            (delete_where-All (λ d. pending_at id sequence d ≡ false)
              (λ d. d.subscription_id =t= old) h.deliveries v)
      | inr e ↦ rw (e, delete_owned_subscription) v
    ]

retry-IsDone :
    (h : Hooks) (id : Text) (sequence owner : ℕ) (of : Text) (now : ℕ)
    → IsDone id sequence h
    → IsDone id sequence (retry_owned_head_delivery h owner of now).0
unfolding retry_owned_head_delivery
retry-IsDone h id sequence owner of now v =
    elim (Bool-cases (exists_where (owned_by owner of) h.subscriptions)) [
      | inl e ↦
          rw (e, retry_owned_head_delivery) (updated id sequence _ _ h.deliveries (λ d q. q) v)
      | inr e ↦ rw (e, retry_owned_head_delivery) v
    ]

discard-IsDone :
    (h : Hooks) (id : Text) (sequence owner : ℕ) (of : Text) (now : ℕ)
    → IsDone id sequence h
    → IsDone id sequence (discard_owned_head_delivery h owner of now).0
unfolding discard_owned_head_delivery
discard-IsDone h id sequence owner of now v =
    elim (Bool-cases (exists_where (owned_by owner of) h.subscriptions)) [
      | inl e ↦
          rw (e, discard_owned_head_delivery)
            (updated id sequence (head_of of h.deliveries) (discard now) h.deliveries
              (λ d q. refl_false d) v)
      | inr e ↦ rw (e, discard_owned_head_delivery) v
    ]
  where
    refl_false : (d : Delivery) → pending_at id sequence (discard now d) ≡ false
    refl_false d = ground arith

record_delivered_keeps :
    (h : Hooks) (id : Text) (sequence : ℕ) (other : Text) (n now : ℕ)
    → IsDone id sequence h
    → IsDone id sequence (record_delivered h other n now)
unfolding record_delivered
record_delivered_keeps h id sequence other n now v =
    updated id sequence (pending_at other n) _ h.deliveries (λ d q. ground arith) v

record_failed_keeps :
    (h : Hooks) (id : Text) (sequence : ℕ) (other : Text) (n : ℕ) (failure : DeliveryFailure)
    (attempts next now : ℕ)
    → IsDone id sequence h
    → IsDone id sequence (record_failed h other n failure attempts next now)
unfolding record_failed
record_failed_keeps h id sequence other n failure attempts next now v =
    updated id sequence (pending_at other n) _ h.deliveries (λ d q. q) v

pub step-IsDone :
    (h : Hooks) (id : Text) (sequence : ℕ) (c : Call)
    → IsDone id sequence h
    → IsDone id sequence (step h c)
unfolding step disable_exhausted_subscription activate_owned_subscription replace_owned_secret
step-IsDone h id sequence (claims now until limit) v =
    claim-IsDone h id sequence now until limit (claim_due_deliveries h now until limit) refl v
step-IsDone h id sequence (delivers other n now) v =
    record_delivered_keeps h id sequence other n now v
step-IsDone h id sequence (fails other n failure attempts next now) v =
    record_failed_keeps h id sequence other n failure attempts next now v
step-IsDone h id sequence (disables other now) v = v
step-IsDone h id sequence (creates owner new url kinds secret now) v =
    create-IsDone h id sequence owner new url kinds secret now v
step-IsDone h id sequence (activates owner of now) v = v
step-IsDone h id sequence (deletes owner of) v = delete-IsDone h id sequence owner of v
step-IsDone h id sequence (replaces owner of secret now) v = v
step-IsDone h id sequence (retries owner of now) v = retry-IsDone h id sequence owner of now v
step-IsDone h id sequence (discards owner of now) v = discard-IsDone h id sequence owner of now v

pub run-IsDone :
    (h : Hooks) (id : Text) (sequence : ℕ) (cs : List Call)
    → IsDone id sequence h
    → IsDone id sequence (run h cs)
unfolding run
run-IsDone h id sequence [] v = v
run-IsDone h id sequence (c ∷ cs) v =
    run-IsDone (step h c) id sequence cs (step-IsDone h id sequence c v)

due_pending :
    (h : Hooks) (now : ℕ) (d : Delivery) (id : Text) (sequence : ℕ)
    → pending_at id sequence d ≡ false
    → is_due h now d ≡ true
    → (d.subscription_id =t= id && d.event_sequence == sequence) ≡ false
unfolding is_due
due_pending h now d id sequence q e = ground arith

-- An event whose delivery to a subscription was recorded is not sent to it again: after any calls, retries
-- and repairs among them, no claim at any time returns that event for that subscription.
pub delivered_once :
    (h : Hooks) (id : Text) (sequence now : ℕ) (cs : List Call) (later until limit : ℕ) (h' : Hooks)
    (ds : List PendingDelivery)
    → claim_due_deliveries (run (record_delivered h id sequence now) cs) later until limit
      ≡ ok (h', ds)
    → All (λ p. (p.subscription_id =t= id && p.event.sequence == sequence) ≡ false) ds
delivered_once h id sequence now cs later until limit h' ds e =
    let s = run (record_delivered h id sequence now) cs in
    let done =
      run-IsDone (record_delivered h id sequence now) id sequence cs
        (record_delivered-IsDone h id sequence now) in
    let rows = due_rows s later limit in
    load_rows-All (λ k n. (k =t= id && n == sequence) ≡ false) h'
      (lease_rows until rows s.deliveries).1 ds
      (lease_rows-keys (λ k n. (k =t= id && n == sequence) ≡ false) until rows s.deliveries
        (All-mono _ _ (λ d q. due_pending s later d id sequence q.0 q.1) rows
          (due_rows-All (λ d. pending_at id sequence d ≡ false) s later limit done)))
      (claim_due_deliveries-Claimed s later until limit h' ds e).loaded

disabled_inactive :
    (h : Hooks) (id : Text) (now : ℕ)
    → All (λ s. active_id id s ≡ false) (disable_exhausted_subscription h id now).subscriptions
unfolding disable_exhausted_subscription
disabled_inactive h id now =
    update_where-All (λ _. Unit {0}) (λ s. active_id id s ≡ false) (active_id id) _
      (λ s _ _. ground arith) (λ s _ q. q) h.subscriptions (All-trivial _ (λ _. tt) h.subscriptions)

attempt_disables :
    (h : Hooks) (id : Text) (now attempts : ℕ)
    → webhook_max_attempts ≤ attempts
    → All (λ s. active_id id s ≡ false) (disable_if_exhausted h now id attempts).subscriptions
attempt_disables h id now attempts q =
    let over : leb webhook_max_attempts attempts ≡ true = ground arith in
    rw over (disabled_inactive h id now)

-- When the tenth attempt of a delivery, or a later one, fails, its subscription gets nothing more: the next
-- claim, at any time, returns no delivery of it.
pub record_attempt_exhausted :
    (h : Hooks) (out : TickOutcome) (now : ℕ) (p : PendingDelivery) (failure : DeliveryFailure)
    (later until limit : ℕ) (h' : Hooks) (ds : List PendingDelivery)
    → 9 ≤ p.attempt_count
    → claim_due_deliveries (record_attempt h out now p (err failure)).0 later until limit
      ≡ ok (h', ds)
    → All (λ q. (q.subscription_id =t= p.subscription_id) ≡ false) ds
unfolding record_attempt
record_attempt_exhausted h out now p failure later until limit h' ds many e =
    let attempts = saturating_u32 (p.attempt_count + 1) in
    let failed =
      record_failed h p.subscription_id p.event.sequence failure attempts
        (saturating_i64 (now + webhook_backoff_ms attempts)) now in
    All-mono (λ q. IsNext _ later q.subscription_id q.event.sequence) _
      (λ q next. unequal λ same.
        exists_where-All (active_id p.subscription_id)
          (disable_if_exhausted failed now p.subscription_id attempts).subscriptions
          (ap
              (λ k.
                exists_where (active_id k)
                  (disable_if_exhausted failed now p.subscription_id attempts).subscriptions)
              (sym same)
            ∙ next.active)
          (attempt_disables failed p.subscription_id now attempts (omega arith)))
      ds (claim_due_deliveries-IsNext _ later until limit h' ds e)
  where
    unequal : {a b : Text} → (a ≡ b → ⊥) → (a =t= b) ≡ false
    unequal {a} {b} f = elim (Bool-cases (a =t= b)) [
      | inl q ↦ absurd (f (=t=-eq a b q))
      | inr q ↦ q
    ]
