-- ===== src/Mcp/Retired.antt =====
-- Revoked families under each call of the token store.
use mathlib.Core.Path.{subst}
use marginalis.Prelude.{
  ℕ, ◌≡◌, refl, sym, ap, ◌∙◌, false, Option-cases, inl, inr, List, [], ◌∷◌, ◌++◌, Option, none,
  some, arith,
}
use marginalis.Text.{Text, ◌=t=◌}
use marginalis.Tables.{find_where, find_where-All, find_where-test}
use marginalis.Domain.Identity.{Actor}
use marginalis.Mcp.Store.{External, Code, RefreshToken, Store, live_refresh_of}
use marginalis.Mcp.Exchange.{
  CodeExchange, redeem, exchange_code, revoke_replayed, revoke_code_family, replayed, redeemable,
}
use marginalis.Mcp.Registration.{register_client_bounded, issue_code}
use marginalis.Mcp.Tokens.{
  authenticate, admit, usable, touch_access, revoke_found, rotate, rotate_found, rotatable,
  revoke_client_tokens, revoke_token, family_of_token, mark_rotated, refresh_replayed, Rotation,
  revoke_replayed_refresh,
}
use marginalis.Mcp.Calls.{
  Call, registers, issues, exchanges, authenticates, rotates, revokes_client, revokes_token, step,
  run, after, after_update, after-cases, after_update-cases,
}
use marginalis.Mcp.Issue.{issue_code-Issued, register_client_bounded-Registered}
use marginalis.Mcp.Outcomes.{
  granted_access, granted_refresh, redeem-Redeemed, rotated_access, rotated_refresh,
  rotate_found-cases, admit-Admitted, revoke_client_tokens-ok,
}
use marginalis.Mcp.Families.{
  IsRetired, kept, revoke_family-IsRetired, revoke_principal_client-IsRetired, grown, fresh_name,
  update_none,
}

redeem-IsRetired :
    (env : External) (s : Store) (ex : CodeExchange) (now : ℕ) (c : Code) (family : Text)
    → IsRetired family s
    → IsRetired family (after s (redeem env s ex now c))
redeem-IsRetired env s ex now c family v =
    after-cases (IsRetired family) s (redeem env s ex now c) v λ s' g e.
      let o = redeem-Redeemed env s ex now c s' g e in
      let new = fresh_name family (env.hash_token ex.refresh_token) s o.new_family v in
      grown family s s' (granted_access env ex c) (granted_refresh env ex c) (λ _. false) (λ t. t)
        (λ t h. h) (λ t. refl) new new o.access
        (o.refresh
          ∙ ap (λ ts. ts ++ granted_refresh env ex c ∷ []) (sym (update_none s.refresh_tokens)))
        v

exchange_code-IsRetired :
    (env : External) (s : Store) (ex : CodeExchange) (now : ℕ) (family : Text)
    → IsRetired family s
    → IsRetired family (after s (exchange_code env s ex now))
unfolding exchange_code
exchange_code-IsRetired env s ex now family v =
    elim (Option-cases (find_where (redeemable env ex now) s.codes)) [
      | inl e ↦ rw (e, exchange_code) (replay_revokes (find_where (replayed env ex) s.codes))
      | inr (c, e) ↦ rw (e, exchange_code) (redeem-IsRetired env s ex now c family v)
    ]
  where
    revokes : (f : Option Text) → IsRetired family (revoke_code_family now f s)
    revokes none = v
    revokes (some f) = revoke_family-IsRetired now f family s v

    replay_revokes : (c : Option Code) → IsRetired family (revoke_replayed now c s)
    replay_revokes none = v
    replay_revokes (some c) = revokes c.token_family

-- The token that a rotation finds is live, so it is not of a retired family.
rotatable_name :
    (env : External) (s : Store) (r : Rotation) (now : ℕ) (t : RefreshToken) (family : Text)
    → find_where (rotatable env r now) s.refresh_tokens ≡ some t
    → IsRetired family s
    → (t.token_family =t= family) ≡ false
rotatable_name env s r now t family e v = ground (
  arith,
  find_where-test (rotatable env r now) s.refresh_tokens t e,
  find_where-All (λ x. live_refresh_of family x ≡ false) (rotatable env r now) s.refresh_tokens t
      v.revoked.refresh e,
)

rotate_found-IsRetired :
    (env : External) (s : Store) (r : Rotation) (now : ℕ) (t : RefreshToken) (family : Text)
    → find_where (rotatable env r now) s.refresh_tokens ≡ some t
    → IsRetired family s
    → IsRetired family (after s (rotate_found env s r now t))
rotate_found-IsRetired env s r now t family found v =
    after-cases (IsRetired family) s (rotate_found env s r now t) v λ s' out e.
      elim (rotate_found-cases env s r now t s' out e) [
        | inl (same, _) ↦ subst (IsRetired family) (sym same) v
        | inr (_, o) ↦
            let other = rotatable_name env s r now t family found v in
            grown family s s' (rotated_access env r t) (rotated_refresh env r t)
              (rotatable env r now) (mark_rotated now) (λ x h. h) (λ x. refl) other other o.access
              o.refresh v
      ]

rotate-IsRetired :
    (env : External) (s : Store) (r : Rotation) (now : ℕ) (family : Text)
    → IsRetired family s
    → IsRetired family (after s (rotate env s r now))
unfolding rotate
rotate-IsRetired env s r now family v =
    elim (Option-cases (find_where (rotatable env r now) s.refresh_tokens)) [
      | inl e ↦
          rw (e, rotate) (replay_revokes (find_where (refresh_replayed env r) s.refresh_tokens))
      | inr (t, e) ↦ rw (e, rotate) (rotate_found-IsRetired env s r now t family e v)
    ]
  where
    replay_revokes : (t : Option RefreshToken) → IsRetired family (revoke_replayed_refresh now t s)
    replay_revokes none = v
    replay_revokes (some t) = revoke_family-IsRetired now t.token_family family s v

authenticate-IsRetired :
    (env : External) (s : Store) (token resource : Text) (now : ℕ) (family : Text)
    → IsRetired family s
    → IsRetired family (after s (authenticate env s token resource now))
unfolding authenticate
authenticate-IsRetired env s token resource now family v =
    elim (Option-cases (find_where (usable env token resource now) s.access_tokens)) [
      | inl e ↦ rw (e, authenticate) v
      | inr (t, e) ↦
          rw (e, authenticate)
            (after-cases (IsRetired family) s (admit env s token resource now t) v λ s' a h.
              let (o, _) = admit-Admitted env s token resource now t s' a h in
              kept family s s' (usable env token resource now) (touch_access now) (λ _. false)
                (λ x. x) (λ x d. d) (λ x d. d) (λ x. refl) o.access
                (o.refresh ∙ sym (update_none s.refresh_tokens)) v)
    ]

revoke_token-IsRetired :
    (env : External) (s : Store) (token client : Text) (now : ℕ) (family : Text)
    → IsRetired family s
    → IsRetired family (revoke_token env s token client now)
unfolding revoke_token
revoke_token-IsRetired env s token client now family v =
    elim (Option-cases (family_of_token (env.hash_token token) client s)) [
      | inl e ↦ rw (e, revoke_token) v
      | inr (f, e) ↦ rw (e, revoke_token) (revoke_family-IsRetired now f family s v)
    ]

revoke_client_tokens-IsRetired :
    (env : External) (s : Store) (issuer subject client : Text) (now : ℕ) (family : Text)
    → IsRetired family s
    → IsRetired family (after_update s (revoke_client_tokens env s issuer subject client now))
revoke_client_tokens-IsRetired env s issuer subject client now family v =
    after_update-cases (IsRetired family) s (revoke_client_tokens env s issuer subject client now) v
      λ s' e.
        let (found, same) = revoke_client_tokens-ok env s issuer subject client now s' e in
        subst (IsRetired family) (sym same) (revokes found)
  where
    revokes : (found : Option (Actor × ℕ)) → IsRetired family (revoke_found client now found s)
    revokes none = v
    revokes (some (actor, id)) =
        revoke_principal_client-IsRetired actor.principal.id client now family s v

same_tokens :
    (family : Text) (s s' : Store)
    → s'.access_tokens ≡ s.access_tokens
    → s'.refresh_tokens ≡ s.refresh_tokens
    → IsRetired family s
    → IsRetired family s'
same_tokens family s s' a r v =
    kept family s s' (λ _. false) (λ x. x) (λ _. false) (λ x. x) (λ x d. d) (λ x d. d) (λ x. refl)
      (a ∙ sym (update_none s.access_tokens)) (r ∙ sym (update_none s.refresh_tokens)) v

-- Every call keeps a retired family retired.
pub step-IsRetired :
    (env : External) (s : Store) (c : Call) (family : Text)
    → IsRetired family s
    → IsRetired family (step env s c)
unfolding step
step-IsRetired env s (registers id name uris now maximum) family v =
    after-cases (IsRetired family) s (register_client_bounded s id name uris now maximum) v
      λ s' b e.
        let o = register_client_bounded-Registered s id name uris now maximum s' b e in
        same_tokens family s s' o.access o.refresh v
step-IsRetired env s (issues code client grant challenge expires now principal id) family v =
    after_update-cases (IsRetired family) s
      (issue_code env s code client grant challenge expires now principal id) v
      λ s' e.
        let o = issue_code-Issued env s code client grant challenge expires now principal id s' e in
        same_tokens family s s' o.access o.refresh v
step-IsRetired env s (exchanges ex now) family v = exchange_code-IsRetired env s ex now family v
step-IsRetired env s (authenticates token resource now) family v =
    authenticate-IsRetired env s token resource now family v
step-IsRetired env s (rotates r now) family v = rotate-IsRetired env s r now family v
step-IsRetired env s (revokes_client issuer subject client now) family v =
    revoke_client_tokens-IsRetired env s issuer subject client now family v
step-IsRetired env s (revokes_token token client now) family v =
    revoke_token-IsRetired env s token client now family v

pub run-IsRetired :
    (env : External) (s : Store) (cs : List Call) (family : Text)
    → IsRetired family s
    → IsRetired family (run env s cs)
unfolding run
run-IsRetired env s [] family v = v
run-IsRetired env s (c ∷ cs) family v =
    run-IsRetired env (step env s c) cs family (step-IsRetired env s c family v)
