-- ===== src/Webhook/Claimed.antt =====
-- One claim of deliveries: what `claim_due_deliveries` has done when it returns, and which deliveries it returns.
use mathlib.Core.Path.{subst}
use marginalis.Prelude.{
  ℕ, ◌≡◌, sym, ap, ◌∙◌, Bool, true, false, ◌&&◌, List, arith, All, ltb, leb, Result, ok, >>=-eq-ok,
}
use marginalis.Text.{Text}
use marginalis.Text.Equality.{=t=-refl}
use marginalis.Tables.{exists_where, All-mono, All-member}
use marginalis.Webhook.Store.{
  Delivery, Hooks, PendingDelivery, StorageError, pending_of, pending_at, is_pending, is_head,
}
use marginalis.Webhook.Claims.{
  active_id, is_due, lease_over, lease_rows, load_rows, claim_due_deliveries,
}
use marginalis.Webhook.Order.{due_rows, due_rows-All, lease_rows-keys, load_rows-All}

abbrev pub earlier : Text → ℕ → Delivery → Bool
earlier id sequence e = pending_of id e && ltb e.event_sequence sequence

-- What a claim that returns has done.
pub record Claimed (h : Hooks) (now until limit : ℕ) (h' : Hooks) (ds : List PendingDelivery)
    : Type 0 where
  pub table : h'.deliveries ≡ (lease_rows until (due_rows h now limit) h.deliveries).0
  pub loaded : load_rows h' (lease_rows until (due_rows h now limit) h.deliveries).1 ≡ ok ds

abbrev ok_claim : Hooks → List PendingDelivery → Result StorageError (Hooks × List PendingDelivery)
ok_claim h ds = ok (h, ds)

pub claim_due_deliveries-Claimed :
    (h : Hooks) (now until limit : ℕ) (h' : Hooks) (ds : List PendingDelivery)
    → claim_due_deliveries h now until limit ≡ ok (h', ds)
    → Claimed h now until limit h' ds
unfolding claim_due_deliveries
claim_due_deliveries-Claimed h now until limit h' ds e =
    let leased : Hooks = record h {
      deliveries = (lease_rows until (due_rows h now limit) h.deliveries).0;
    } in
    let (rows, l, e1) =
      >>=-eq-ok (load_rows leased (lease_rows until (due_rows h now limit) h.deliveries).1) _ e in
    let (same_hooks, same_rows) = pair_eq e1 in
    record {
      table = sym (ap (λ x. x.deliveries) same_hooks);
      loaded =
          subst (λ x. load_rows x (lease_rows until (due_rows h now limit) h.deliveries).1 ≡ ok ds)
            same_hooks (l ∙ ap ok same_rows);
    }
  where
    pair_eq :
        {a b : Hooks} {x y : List PendingDelivery} → ok_claim a x ≡ ok_claim b y → (a ≡ b) × (x ≡ y)
    pair_eq q = (cc, cc)

-- The delivery is pending and due, and no lease of it runs.
abbrev pub ready_at : ℕ → Text → ℕ → Delivery → Bool
ready_at now id sequence d =
    pending_at id sequence d && leb d.next_attempt_at now && lease_over now d.lease_expires_at

-- The next delivery of a subscription that is active.
pub record IsNext (h : Hooks) (now : ℕ) (id : Text) (sequence : ℕ) : Type 0 where
  pub active : exists_where (active_id id) h.subscriptions ≡ true
  pub first : exists_where (earlier id sequence) h.deliveries ≡ false
  pub ready : exists_where (ready_at now id sequence) h.deliveries ≡ true

abbrev pub Member : Hooks → Delivery → Type 0
Member h d = (u : Delivery → Bool) → u d ≡ true → exists_where u h.deliveries ≡ true

pub is_due-IsNext :
    (h : Hooks) (now : ℕ) (d : Delivery)
    → Member h d
    → is_due h now d ≡ true
    → IsNext h now d.subscription_id d.event_sequence
unfolding is_due is_head
is_due-IsNext h now d member e = record {
  active = ground arith;
  first = ground arith;
  ready =
      member (ready_at now d.subscription_id d.event_sequence)
        (ground (arith, =t=-refl d.subscription_id));
}

pub is_due-first :
    (h : Hooks) (now : ℕ) (d : Delivery)
    → is_due h now d ≡ true
    → exists_where (earlier d.subscription_id d.event_sequence) h.deliveries ≡ false
unfolding is_due is_head
is_due-first h now d e = ground arith

pub is_due-free :
    (h : Hooks) (now : ℕ) (d : Delivery)
    → is_due h now d ≡ true
    → lease_over now d.lease_expires_at ≡ true
unfolding is_due
is_due-free h now d e = ground arith

pub is_due-pending :
    (h : Hooks) (now : ℕ) (d : Delivery) → is_due h now d ≡ true → is_pending d.state ≡ true
unfolding is_due
is_due-pending h now d e = ground arith

-- In the tables as the claim finds them, each delivery that it returns is of an active subscription, is
-- pending, due and under no running lease, and no pending delivery of the same subscription has an
-- earlier event.
pub claim_due_deliveries-IsNext :
    (h : Hooks) (now until limit : ℕ) (h' : Hooks) (ds : List PendingDelivery)
    → claim_due_deliveries h now until limit ≡ ok (h', ds)
    → All (λ p. IsNext h now p.subscription_id p.event.sequence) ds
claim_due_deliveries-IsNext h now until limit h' ds e =
    let c = claim_due_deliveries-Claimed h now until limit h' ds e in
    load_rows-All (IsNext h now) h' (lease_rows until (due_rows h now limit) h.deliveries).1 ds
      (lease_rows-keys (IsNext h now) until (due_rows h now limit) h.deliveries (
        All-mono (λ d. Member h d × (is_due h now d ≡ true)) _
          (λ d q. is_due-IsNext h now d q.0 q.1) (due_rows h now limit)
          (due_rows-All (Member h) h now limit (All-member h.deliveries))))
      c.loaded
