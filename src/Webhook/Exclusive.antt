-- ===== src/Webhook/Exclusive.antt =====
-- Claims of deliveries, one after the other: `claim_due_deliveries`.
use mathlib.Core.Path.{subst}
use marginalis.Prelude.{
  ℕ, ◌≡◌, ◌<◌, refl, sym, ap, ◌∙◌, Bool, true, false, Bool-cases, inl, inr, List, [], ◌∷◌, arith,
  All, ltb, leb, ◌==◌, Result, ok, err,
}
use marginalis.Text.{Text, ◌=t=◌}
use marginalis.Text.Equality.{=t=-eq}
use marginalis.Tables.{
  exists_where, exists_where-false_All, exists_where_mono, All-mono, All-both, All-member,
}
use marginalis.Webhook.Store.{Delivery, Hooks, PendingDelivery, StorageError, pending_at}
use marginalis.Webhook.Claims.{is_due, lease_over, lease_rows, claim_due_deliveries}
use marginalis.Webhook.Order.{
  due_rows, due_rows-All, lease_rows-keys, lease_rows-exists, LeasedRow, IsLeased,
  lease_rows-IsLeased, lease_rows-keeps, load_rows-All,
}
use marginalis.Webhook.Claimed.{
  earlier, claim_due_deliveries-Claimed, IsNext, Member, is_due-IsNext, is_due-first, is_due-free,
  is_due-pending,
}

-- The facts on a claimed key in the leased table.
record IsHeld (until : ℕ) (table : List Delivery) (id : Text) (sequence : ℕ) : Type 0 where
  leased : IsLeased until table id sequence
  pub first : exists_where (earlier id sequence) table ≡ false

claim-IsHeld :
    (h : Hooks) (now until limit : ℕ) (h' : Hooks) (ds : List PendingDelivery)
    → claim_due_deliveries h now until limit ≡ ok (h', ds)
    → All (λ p. IsHeld until h'.deliveries p.subscription_id p.event.sequence) ds
claim-IsHeld h now until limit h' ds e =
    let c = claim_due_deliveries-Claimed h now until limit h' ds e in
    let rows = due_rows h now limit in
    let table = (lease_rows until rows h.deliveries).0 in
    let keys = (lease_rows until rows h.deliveries).1 in
    let next = lease_rows-keys (IsNext h now) until rows h.deliveries (
      All-mono (λ d. Member h d × (is_due h now d ≡ true)) _ (λ d q. is_due-IsNext h now d q.0 q.1)
        rows (due_rows-All (Member h) h now limit (All-member h.deliveries))) in
    load_rows-All (IsHeld until h'.deliveries) h' keys ds
      (subst (λ ts. All (λ k. IsHeld until ts k.0 k.1) keys) (sym c.table)
        (All-mono (λ k. IsNext h now k.0 k.1 × IsLeased until table k.0 k.1)
          (λ k. IsHeld until table k.0 k.1)
          (λ k q. record {
            leased = q.1;
            first =
                lease_rows-exists (earlier k.0 k.1) until (λ _. refl) rows h.deliveries ∙ q.0.first;
          })
          keys (All-both _ _ keys next (lease_rows-IsLeased until rows h.deliveries))))
      c.loaded

-- A row that is due is of no subscription that holds a lease.
not_due :
    (h : Hooks) (later until : ℕ) (id : Text) (sequence : ℕ) (d : Delivery)
    → later < until
    → IsHeld until h.deliveries id sequence
    → LeasedRow until id sequence d
    → earlier id sequence d ≡ false
    → is_due h later d ≡ true
    → (d.subscription_id =t= id) ≡ false
not_due h later until id sequence d soon held leased late due =
    elim (Bool-cases (d.subscription_id =t= id)) [
      | inr q ↦ q
      | inl q ↦
          let same = =t=-eq d.subscription_id id q in
          let at_most : ltb sequence d.event_sequence ≡ false =
            not_later same (is_due-first h later d due) in
          let equal : (d.event_sequence == sequence) ≡ true =
            ground (arith, is_due-pending h later d due) in
          let free : lease_over later d.lease_expires_at ≡ true = is_due-free h later d due in
          let until_eq = leased (ground (arith, is_due-pending h later d due, q, equal)) in
          absurd (ground (arith, free, ap (lease_over later) until_eq))
    ]
  where
    not_later :
        d.subscription_id ≡ id
        → exists_where (earlier d.subscription_id d.event_sequence) h.deliveries ≡ false
        → ltb sequence d.event_sequence ≡ false
    not_later same none_earlier = elim (Bool-cases (ltb sequence d.event_sequence)) [
      | inr r ↦ r
      | inl r ↦ absurd (
          cc (
            exists_where_mono (pending_at id sequence) (earlier id d.event_sequence) h.deliveries
                (λ x t. ground (arith, r)) held.leased.stored,
            ap (λ k. exists_where (earlier k d.event_sequence) h.deliveries) same,
            none_earlier,
          ))
    ]

-- None of the rows that a later claim looks at is of a subscription that holds a lease.
held_apart :
    (h : Hooks) (later limit until : ℕ) (id : Text) (sequence : ℕ)
    → later < until
    → IsHeld until h.deliveries id sequence
    → All (λ d. (d.subscription_id =t= id) ≡ false) (due_rows h later limit)
held_apart h later limit until id sequence soon held =
    All-mono _ _ (λ d q. not_due h later until id sequence d soon held q.0.0 q.0.1 q.1)
      (due_rows h later limit)
      (due_rows-All _ h later limit (
        All-both (LeasedRow until id sequence) (λ d. earlier id sequence d ≡ false) h.deliveries
          held.leased.rows (exists_where-false_All (earlier id sequence) h.deliveries held.first)))

-- A claim with its arguments.
pub record ClaimAt : Type 0 where
  pub time : ℕ
  pub lease_until : ℕ
  pub limit : ℕ

-- The tables after a claim, which is rolled back where it fails.
abbrev pub after_claim : Hooks → Result StorageError (Hooks × List PendingDelivery) → Hooks
after_claim h (err x) = h
after_claim h (ok (h', ds)) = h'

abbrev pub claim_each : Hooks → List ClaimAt → Hooks
claim_each h [] = h
claim_each h (c ∷ cs) =
    claim_each (after_claim h (claim_due_deliveries h c.time c.lease_until c.limit)) cs

-- The claim comes at a time at which a lease until `until` has run out.
abbrev pub comes_late : ℕ → ClaimAt → Bool
comes_late until c = leb until c.time

after_claim-IsHeld :
    (h : Hooks) (c : ClaimAt) (r : Result StorageError (Hooks × List PendingDelivery)) (until : ℕ)
    (id : Text) (sequence : ℕ)
    → claim_due_deliveries h c.time c.lease_until c.limit ≡ r
    → c.time < until
    → IsHeld until h.deliveries id sequence
    → IsHeld until (after_claim h r).deliveries id sequence
after_claim-IsHeld h c (err x) until id sequence e soon held = held
after_claim-IsHeld h c (ok (h', ds)) until id sequence e soon held =
    let d = claim_due_deliveries-Claimed h c.time c.lease_until c.limit h' ds e in
    let rows = due_rows h c.time c.limit in
    subst (λ table. IsHeld until table id sequence) (sym d.table)
      (record {
        leased = record {
          rows =
              lease_rows-keeps until id sequence c.lease_until rows h.deliveries
                (held_apart h c.time c.limit until id sequence soon held) held.leased.rows;
          stored =
              lease_rows-exists (pending_at id sequence) c.lease_until (λ _. refl) rows h.deliveries
              ∙ held.leased.stored;
        };
        first =
            lease_rows-exists (earlier id sequence) c.lease_until (λ _. refl) rows h.deliveries
            ∙ held.first;
      })

claim_each-IsHeld :
    (h : Hooks) (cs : List ClaimAt) (until : ℕ) (id : Text) (sequence : ℕ)
    → exists_where (comes_late until) cs ≡ false
    → IsHeld until h.deliveries id sequence
    → IsHeld until (claim_each h cs).deliveries id sequence
claim_each-IsHeld h [] until id sequence early held = held
claim_each-IsHeld h (c ∷ cs) until id sequence early held =
    claim_each-IsHeld (after_claim h (claim_due_deliveries h c.time c.lease_until c.limit)) cs until
      id sequence (ground arith)
      (after_claim-IsHeld h c (claim_due_deliveries h c.time c.lease_until c.limit) until id
        sequence refl (ground arith) held)

-- After a claim, and any number of further claims before its leases run out, with nothing but claims in
-- between, another claim before that time returns no delivery of a subscription that the first claim
-- returned one of.
pub claim_due_deliveries_exclusive :
    (h : Hooks) (now until limit : ℕ) (h' : Hooks) (ds : List PendingDelivery) (cs : List ClaimAt)
    (later until' limit' : ℕ) (h'' : Hooks) (ds' : List PendingDelivery)
    → claim_due_deliveries h now until limit ≡ ok (h', ds)
    → exists_where (comes_late until) cs ≡ false
    → claim_due_deliveries (claim_each h' cs) later until' limit' ≡ ok (h'', ds')
    → later < until
    → All (λ p. All (λ q. (q.subscription_id =t= p.subscription_id) ≡ false) ds') ds
claim_due_deliveries_exclusive h now until limit h' ds cs later until' limit' h'' ds' e early e'
      soon =
    All-mono (λ p. IsHeld until h'.deliveries p.subscription_id p.event.sequence) _ apart ds
      (claim-IsHeld h now until limit h' ds e)
  where
    apart :
        (p : PendingDelivery)
        → IsHeld until h'.deliveries p.subscription_id p.event.sequence
        → All (λ q. (q.subscription_id =t= p.subscription_id) ≡ false) ds'
    apart p held =
        let id = p.subscription_id in
        let k = claim_each h' cs in
        let still = claim_each-IsHeld h' cs until id p.event.sequence early held in
        load_rows-All (λ i n. (i =t= id) ≡ false) h''
          (lease_rows until' (due_rows k later limit') k.deliveries).1 ds'
          (lease_rows-keys (λ i n. (i =t= id) ≡ false) until' (due_rows k later limit') k.deliveries
            (held_apart k later limit' until id p.event.sequence soon still))
          (claim_due_deliveries-Claimed k later until' limit' h'' ds' e').loaded
