-- ===== src/Webhook/UseCases.antt =====
-- crates/marginalis-application/src/webhooks.rs: the use cases of owners, over the tables. The sender, the
-- clock and the random tokens are arguments.
use marginalis.Prelude.{
  ℕ, ◌≡◌, refl, ap, ◌∙◌, Bool, true, false, ◌==◌, List, [], ◌∷◌, Option, none, some, arith, Result,
  ok, err,
}
use marginalis.Text.{Text}
use marginalis.Tables.{
  find_where, update_where, delete_where, exists_where, count_where, exists_where-false_All,
  find_where-none,
}
use marginalis.Webhook.Store.{Hooks, DeliveryFailure, Subscription}
use marginalis.Webhook.Owned.{
  owned_by, renew, activate_owned_subscription, delete_owned_subscription, replace_owned_secret,
  retry_owned_head_delivery, discard_owned_head_delivery,
}

pub data UseCaseError : Type 0 where
  not_found : UseCaseError

-- `WebhookVerificationOutcome`.
pub data VerificationOutcome : Type 0 where
  activated : VerificationOutcome
  failed : DeliveryFailure → VerificationOutcome

abbrev pub or_not_found {ℓ} : {A : Type ℓ} → A → Hooks × Bool → Hooks × Result UseCaseError A
or_not_found a (h, true) = (h, ok a)
or_not_found a (h, false) = (h, err not_found)

-- `verify_subscription`, with the function that asks the destination.
abbrev verified :
    (Text → Text → ℕ → Text → Result DeliveryFailure (Unit {0}))
    → Hooks
    → ℕ
    → Text
    → ℕ
    → Text
    → Option Subscription
    → Hooks × Result UseCaseError VerificationOutcome
verified ask h owner id now challenge none = (h, err not_found)
verified ask h owner id now challenge (some s) = elim (ask s.url s.secret now challenge) [
  | ok u ↦ or_not_found activated (activate_owned_subscription h owner id now)
  | err failure ↦ (h, ok (failed failure))
]

unfoldable pub verify_subscription :
    (Text → Text → ℕ → Text → Result DeliveryFailure (Unit {0}))
    → Hooks
    → ℕ
    → Text
    → ℕ
    → Text
    → Hooks × Result UseCaseError VerificationOutcome
verify_subscription ask h owner id now challenge =
    verified ask h owner id now challenge (find_where (owned_by owner id) h.subscriptions)

unfoldable pub regenerate_secret : Hooks → ℕ → Text → Text → ℕ → Hooks × Result UseCaseError Text
regenerate_secret h owner id secret now =
    or_not_found secret (replace_owned_secret h owner id secret now)

unfoldable pub delete_subscription : Hooks → ℕ → Text → Hooks × Result UseCaseError (Unit {0})
delete_subscription h owner id = or_not_found tt (delete_owned_subscription h owner id)

unfoldable pub retry_delivery : Hooks → ℕ → Text → ℕ → Hooks × Result UseCaseError (Unit {0})
retry_delivery h owner id now = or_not_found tt (retry_owned_head_delivery h owner id now)

unfoldable pub discard_delivery : Hooks → ℕ → Text → ℕ → Hooks × Result UseCaseError (Unit {0})
discard_delivery h owner id now = or_not_found tt (discard_owned_head_delivery h owner id now)

update_where-none {ℓ} :
    {A : Type ℓ} (t : A → Bool) (f : A → A) (xs : List A)
    → exists_where t xs ≡ false
    → update_where t f xs ≡ xs
update_where-none t f [] e = refl
update_where-none t f (x ∷ xs) e = ground (arith, update_where-none t f xs)

delete_where-none {ℓ} :
    {A : Type ℓ} (t : A → Bool) (xs : List A) → exists_where t xs ≡ false → delete_where t xs ≡ xs
delete_where-none t [] e = refl
delete_where-none t (x ∷ xs) e = ground (arith, delete_where-none t xs)

count_where-none {ℓ} :
    {A : Type ℓ} (t : A → Bool) (xs : List A) → exists_where t xs ≡ false → count_where t xs ≡ 0
count_where-none t [] e = refl
count_where-none t (x ∷ xs) e = ground (arith, count_where-none t xs)

-- Of a subscription that the caller does not own, no use case changes anything, and each reports that it
-- was not found.
pub record IsRefused (ask : Text → Text → ℕ → Text → Result DeliveryFailure (Unit {0})) (h : Hooks)
    (owner : ℕ) (id : Text) (now : ℕ) (token : Text) : Type 0 where
  pub verify : verify_subscription ask h owner id now token ≡ (h, err not_found)
  pub regenerate : regenerate_secret h owner id token now ≡ (h, err not_found)
  pub delete : delete_subscription h owner id ≡ (h, err not_found)
  pub retry : retry_delivery h owner id now ≡ (h, err not_found)
  pub discard_head : discard_delivery h owner id now ≡ (h, err not_found)

-- A caller who does not own a subscription gets the answer that there is none from each of the use cases
-- that verify it, renew its secret, delete it, retry its delivery or discard it, and nothing is changed,
-- whatever the destination would answer.
pub stranger-IsRefused :
    (ask : Text → Text → ℕ → Text → Result DeliveryFailure (Unit {0})) (h : Hooks) (owner : ℕ)
    (id : Text) (now : ℕ) (token : Text)
    → exists_where (owned_by owner id) h.subscriptions ≡ false
    → IsRefused ask h owner id now token
unfolding verify_subscription regenerate_secret delete_subscription retry_delivery discard_delivery
    replace_owned_secret delete_owned_subscription retry_owned_head_delivery
    discard_owned_head_delivery
stranger-IsRefused ask h owner id now token e = record {
  verify = ap (verified ask h owner id now token) (
      find_where-none (owned_by owner id) h.subscriptions
        (exists_where-false_All _ h.subscriptions e));
  regenerate =
      ap
        (λ n. or_not_found token (
          record h {
            subscriptions = update_where (owned_by owner id) (renew token now) h.subscriptions;
          },
          n == 1,
        ))
        none_owned
      ∙ ap (λ ss. (record h { subscriptions = ss }, err not_found))
          (update_where-none (owned_by owner id) (renew token now) h.subscriptions e);
  delete = rw (e, none_owned, delete_where-none (owned_by owner id) h.subscriptions e) refl;
  retry = rw e refl;
  discard_head = rw e refl;
}
  where
    none_owned : count_where (owned_by owner id) h.subscriptions ≡ 0
    none_owned = count_where-none (owned_by owner id) h.subscriptions e
