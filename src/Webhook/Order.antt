-- ===== src/Webhook/Order.antt =====
-- The two loops of `claim_due_deliveries`, over rows and over claimed keys.
use mathlib.Core.Path.{subst}
use marginalis.Prelude.{
  ℕ, ◌≡◌, refl, sym, ap, ◌∙◌, Bool, true, false, Bool-cases, inl, inr, List, [], ◌∷◌, Option, none,
  some, arith, All, take-All, leb, ◌==◌, Result, ok, >>=-eq-ok, ok_or, take,
}
use marginalis.Text.{Text, ◌=t=◌}
use marginalis.Text.Equality.{=t=-eq}
use marginalis.Tables.{
  find_where, update_where, select_where, exists_where, count_where, find_where-test,
  update_where-All, exists_where-update, exists_where-count, select_where-All, All-trivial,
}
use marginalis.Webhook.Store.{
  Change, Delivery, Hooks, PendingDelivery, StorageError, row_not_found, pending_at,
}
use marginalis.Webhook.Claims.{
  is_due, insert_sorted, sort_sequence, lease, lease_rows, load_rows, at,
}

insert_sorted-All :
    (P : Delivery → Type 0) (d : Delivery) (ds : List Delivery)
    → P d
    → All P ds
    → All P (insert_sorted d ds)
insert_sorted-All P d [] h a = (h, tt)
insert_sorted-All P d (e ∷ es) h a = elim (Bool-cases (leb d.event_sequence e.event_sequence)) [
  | inl q ↦ rw q (h, a)
  | inr q ↦ rw q (a.0, insert_sorted-All P d es h a.1)
]

sort_sequence-All :
    (P : Delivery → Type 0) (ds : List Delivery) → All P ds → All P (sort_sequence ds)
unfolding sort_sequence
sort_sequence-All P [] a = tt
sort_sequence-All P (d ∷ ds) a =
    insert_sorted-All P d (sort_sequence ds) a.0 (sort_sequence-All P ds a.1)

-- The rows that a claim looks at.
abbrev pub due_rows : Hooks → ℕ → ℕ → List Delivery
due_rows h now limit = take limit (sort_sequence (select_where (is_due h now) h.deliveries))

pub due_rows-All :
    (P : Delivery → Type 0) (h : Hooks) (now limit : ℕ)
    → All P h.deliveries
    → All (λ d. P d × (is_due h now d ≡ true)) (due_rows h now limit)
due_rows-All P h now limit a =
    take-All _ limit (sort_sequence (select_where (is_due h now) h.deliveries)) (
      sort_sequence-All _ (select_where (is_due h now) h.deliveries)
        (select_where-All P (is_due h now) h.deliveries a))

-- What holds of every row holds of the keys that are claimed.
pub lease_rows-keys :
    (K : Text → ℕ → Type 0) (until : ℕ) (rows table : List Delivery)
    → All (λ d. K d.subscription_id d.event_sequence) rows
    → All (λ k. K k.0 k.1) (lease_rows until rows table).1
unfolding lease_rows
lease_rows-keys K until [] table a = tt
lease_rows-keys K until (d ∷ ds) table a =
    let t = pending_at d.subscription_id d.event_sequence in
    elim (Bool-cases (count_where t table == 1)) [
      | inl q ↦ rw q (a.0, lease_rows-keys K until ds (update_where t (lease until) table) a.1)
      | inr q ↦ rw q (lease_rows-keys K until ds (update_where t (lease until) table) a.1)
    ]

-- A test that a lease leaves alone.
pub lease_rows-exists :
    (u : Delivery → Bool) (until : ℕ)
    → ((d : Delivery) → u (lease until d) ≡ u d)
    → (rows table : List Delivery)
    → exists_where u (lease_rows until rows table).0 ≡ exists_where u table
unfolding lease_rows
lease_rows-exists u until h [] table = refl
lease_rows-exists u until h (d ∷ ds) table =
    lease_rows-exists u until h ds
      (update_where (pending_at d.subscription_id d.event_sequence) (lease until) table)
    ∙ exists_where-update (pending_at d.subscription_id d.event_sequence) u (lease until) h table

-- A property that a lease keeps.
pub lease_rows-All :
    (P : Delivery → Type 0) (until : ℕ)
    → ((d : Delivery) → P d → P (lease until d))
    → (rows table : List Delivery) → All P table
    → All P (lease_rows until rows table).0
unfolding lease_rows
lease_rows-All P until h [] table a = a
lease_rows-All P until h (d ∷ ds) table a =
    lease_rows-All P until h ds
      (update_where (pending_at d.subscription_id d.event_sequence) (lease until) table)
      (update_where-All P P (pending_at d.subscription_id d.event_sequence) (lease until)
        (λ x p _. h x p) (λ x p _. p) table a)

abbrev pub LeasedRow : ℕ → Text → ℕ → Delivery → Type 0
LeasedRow until id sequence d = pending_at id sequence d ≡ true → d.lease_expires_at ≡ some until

-- Every claimed key is pending in the leased table, and its rows are leased.
pub record IsLeased (until : ℕ) (table : List Delivery) (id : Text) (sequence : ℕ) : Type 0 where
  pub rows : All (LeasedRow until id sequence) table
  pub stored : exists_where (pending_at id sequence) table ≡ true

pub lease_rows-IsLeased :
    (until : ℕ) (rows table : List Delivery)
    → All
        (λ k. IsLeased until (lease_rows until rows table).0 k.0 k.1)
        (lease_rows until rows table).1
unfolding lease_rows
lease_rows-IsLeased until [] table = tt
lease_rows-IsLeased until (d ∷ ds) table =
    let t = pending_at d.subscription_id d.event_sequence in
    elim (Bool-cases (count_where t table == 1)) [
      | inl q ↦ rw q (
        claimed (exists_where-count t table q),
        lease_rows-IsLeased until ds (update_where t (lease until) table),
      )
      | inr q ↦ rw q (lease_rows-IsLeased until ds (update_where t (lease until) table))
    ]
  where
    claimed :
        exists_where (pending_at d.subscription_id d.event_sequence) table ≡ true
        → IsLeased until
            (lease_rows until ds
              (update_where (pending_at d.subscription_id d.event_sequence) (lease until) table)).0
            d.subscription_id
            d.event_sequence
    claimed e =
        let t = pending_at d.subscription_id d.event_sequence in
        record {
          rows =
              lease_rows-All (LeasedRow until d.subscription_id d.event_sequence) until
                (λ x p _. refl) ds (update_where t (lease until) table)
                (update_where-All (λ _. Unit {0})
                  (LeasedRow until d.subscription_id d.event_sequence) t (lease until)
                  (λ x _ _ _. refl) (λ x _ n q. cc) table (All-trivial _ (λ _. tt) table));
          stored =
              lease_rows-exists t until (λ _. refl) ds (update_where t (lease until) table)
              ∙ exists_where-update t t (lease until) (λ _. refl) table
              ∙ e;
        }

-- A claim of other subscriptions leaves the leases of this one alone.
pub lease_rows-keeps :
    (leased : ℕ) (id : Text) (sequence until : ℕ) (rows table : List Delivery)
    → All (λ d. (d.subscription_id =t= id) ≡ false) rows
    → All (LeasedRow leased id sequence) table
    → All (LeasedRow leased id sequence) (lease_rows until rows table).0
unfolding lease_rows
lease_rows-keeps leased id sequence until [] table others a = a
lease_rows-keeps leased id sequence until (d ∷ ds) table others a =
    lease_rows-keeps leased id sequence until ds
      (update_where (pending_at d.subscription_id d.event_sequence) (lease until) table) others.1
      (update_where-All (LeasedRow leased id sequence) (LeasedRow leased id sequence)
        (pending_at d.subscription_id d.event_sequence) (lease until)
        (λ x p e q. absurd (apart x e q)) (λ x p _. p) table a)
  where
    apart :
        (x : Delivery)
        → pending_at d.subscription_id d.event_sequence x ≡ true
        → pending_at id sequence x ≡ true
        → ⊥
    apart x e q =
        let own : (x.subscription_id =t= d.subscription_id) ≡ true = ground arith in
        let here : (x.subscription_id =t= id) ≡ true = ground arith in
        cc (others.0, here, ap (λ k. k =t= id) (=t=-eq x.subscription_id d.subscription_id own))

abbrev pub ok_list : List PendingDelivery → Result StorageError (List PendingDelivery)
ok_list = ok

-- What holds of the claimed keys holds of the deliveries that are loaded for them.
pub load_rows-All :
    (K : Text → ℕ → Type 0) (h : Hooks) (keys : List (Text × ℕ)) (ds : List PendingDelivery)
    → All (λ k. K k.0 k.1) keys
    → load_rows h keys ≡ ok ds
    → All (λ p. K p.subscription_id p.event.sequence) ds
unfolding load_rows
load_rows-All K h [] ds a e = subst (All (λ p. K p.subscription_id p.event.sequence)) (same e) tt
  where
    same : ok_list [] ≡ ok ds → [] ≡ ds
    same q = cc
load_rows-All K h ((id, sequence) ∷ keys) ds a e =
    let (d, _, e1) =
      >>=-eq-ok (ok_or (find_where (at id sequence) h.deliveries) row_not_found) _ e in
    let (s, _, e2) =
      >>=-eq-ok (ok_or (find_where (λ s. s.subscription_id =t= id) h.subscriptions) row_not_found) _
        e1 in
    let (c, f, e3) =
      >>=-eq-ok (ok_or (find_where (λ c. c.sequence == sequence) h.changes) row_not_found) _ e2 in
    let (rest, r, e4) = >>=-eq-ok (load_rows h keys) _ e3 in
    let named : c.sequence ≡ sequence =
      ground (arith, find_where-test (λ c. c.sequence == sequence) h.changes c (found _ f)) in
    subst (All (λ p. K p.subscription_id p.event.sequence)) (ok_eq e4)
      (subst (K id) (sym named) a.0, load_rows-All K h keys rest a.1 r)
  where
    found : (o : Option Change) {c : Change} → ok_or o row_not_found ≡ ok c → o ≡ some c
    found none q = cc
    found (some x) q = cc

    ok_eq : {xs ys : List PendingDelivery} → ok_list xs ≡ ok ys → xs ≡ ys
    ok_eq q = cc
