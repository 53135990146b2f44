-- ===== src/Mcp/Spent.antt =====
-- Spent codes under each call of the token store.
use mathlib.Core.Path.{subst}
use marginalis.Prelude.{
  ℕ, ◌≡◌, refl, sym, ap, ◌∙◌, true, false, ◌&&◌, ◌==◌, Bool-cases, Option-cases, inl, inr, List, [],
  ◌∷◌, ◌++◌, Option, none, some, arith, All,
}
use marginalis.Text.{Text, ◌=t=◌}
use marginalis.Text.Equality.{=t=-eq}
use marginalis.Tables.{
  find_where, update_where, exists_where, find_where-All, find_where-test, update_where-All,
  delete_where-All, All-snoc, All-mono, exists_where-snoc, exists_where-update, exists_where_mono,
  exists_where-delete,
}
use marginalis.Domain.Identity.{is_none, Actor}
use marginalis.Mcp.Store.{External, Code, RefreshToken, Store, revoke_family}
use marginalis.Mcp.Exchange.{
  CodeExchange, bound_to, redeemable, replayed, redeem, exchange_code, consume, set_family,
  revoke_replayed, revoke_code_family,
}
use marginalis.Mcp.Registration.{register_client_bounded, issue_code}
use marginalis.Mcp.Tokens.{
  authenticate, admit, usable, revoke_found, rotate, rotate_found, rotatable, revoke_client_tokens,
  revoke_principal_client, revoke_token, family_of_token, refresh_replayed, revoke_replayed_refresh,
  Rotation,
}
use marginalis.Mcp.Calls.{
  Call, registers, issues, exchanges, authenticates, rotates, revokes_client, revokes_token, step,
  run, after, after_update, after-cases, after_update-cases,
}
use marginalis.Mcp.Issue.{issue_code-Issued, register_client_bounded-Registered}
use marginalis.Mcp.Outcomes.{
  redeem-Redeemed, rotate_found-cases, admit-Admitted, revoke_client_tokens-ok,
}
use marginalis.Mcp.Codes.{SpentRow, IsSpent, bound_to-hash, bound_to-consume, bound_to-set_family}

module _ (env : External) (ex : CodeExchange) (family : Text) where
  same_codes :
      (s s' : Store) → s'.codes ≡ s.codes → IsSpent env ex family s → IsSpent env ex family s'
  same_codes s s' e v = record {
    rows = subst (All (SpentRow (env.hash_token ex.code) family)) (sym e) v.rows;
    stored = ap (exists_where (bound_to env ex)) e ∙ v.stored;
  }

  revoke_family-IsSpent :
      (s : Store) (now : ℕ) (f : Text)
      → IsSpent env ex family s
      → IsSpent env ex family (revoke_family now f s)
  unfolding revoke_family
  revoke_family-IsSpent s now f v = same_codes s (revoke_family now f s) refl v

  -- The row that another exchange finds is not consumed, so it is another code's.
  other_code :
      (s : Store) (ex2 : CodeExchange) (now : ℕ) (c : Code)
      → find_where (redeemable env ex2 now) s.codes ≡ some c
      → IsSpent env ex family s
      → (env.hash_token ex2.code =t= env.hash_token ex.code) ≡ false
  other_code s ex2 now c e v =
      let test = find_where-test (redeemable env ex2 now) s.codes c e in
      let bound : bound_to env ex2 c ≡ true = ground arith in
      let named = =t=-eq c.code_hash (env.hash_token ex2.code) (bound_to-hash env ex2 c bound) in
      let row =
        find_where-All (SpentRow (env.hash_token ex.code) family) (redeemable env ex2 now) s.codes c
          v.rows e in
      elim (Bool-cases (env.hash_token ex2.code =t= env.hash_token ex.code)) [
        | inl h ↦
            let spent = row (ap (λ k. k =t= env.hash_token ex.code) named ∙ h) in
            absurd (ground (arith, spent.0))
        | inr h ↦ h
      ]

  redeem-IsSpent :
      (s : Store) (ex2 : CodeExchange) (now : ℕ) (c : Code)
      → find_where (redeemable env ex2 now) s.codes ≡ some c
      → IsSpent env ex family s
      → IsSpent env ex family (after s (redeem env s ex2 now c))
  redeem-IsSpent s ex2 now c found v =
      after-cases (IsSpent env ex family) s (redeem env s ex2 now c) v λ s' g e.
        let o = redeem-Redeemed env s ex2 now c s' g e in
        let other = other_code s ex2 now c found v in
        let f = env.hash_token ex2.refresh_token in
        record {
          rows = subst (All (SpentRow (env.hash_token ex.code) family)) (sym o.codes) (
              update_where-All (SpentRow (env.hash_token ex.code) family)
                (SpentRow (env.hash_token ex.code) family)
                (λ x. x.code_hash =t= env.hash_token ex2.code) (set_family f)
                (λ x h t q.
                  absurd (clash x (=t=-eq x.code_hash (env.hash_token ex2.code) t) q other))
                (λ x h t. h) (update_where (redeemable env ex2 now) (consume now) s.codes)
                (update_where-All (SpentRow (env.hash_token ex.code) family)
                  (SpentRow (env.hash_token ex.code) family) (redeemable env ex2 now) (consume now)
                  (λ x h t q. (refl, (h q).1)) (λ x h t. h) s.codes v.rows));
          stored =
              ap (exists_where (bound_to env ex)) o.codes
              ∙ exists_where-update (λ x. x.code_hash =t= env.hash_token ex2.code) (bound_to env ex)
                  (set_family f) (bound_to-set_family env ex f)
                  (update_where (redeemable env ex2 now) (consume now) s.codes)
              ∙ exists_where-update (redeemable env ex2 now) (bound_to env ex) (consume now)
                  (bound_to-consume env ex now) s.codes
              ∙ v.stored;
        }
    where
      clash :
          (x : Code)
          → x.code_hash ≡ env.hash_token ex2.code
          → (x.code_hash =t= env.hash_token ex.code) ≡ true
          → (env.hash_token ex2.code =t= env.hash_token ex.code) ≡ false
          → ⊥
      clash x p q r = cc (ap (λ k. k =t= env.hash_token ex.code) p)

  exchange_code-IsSpent :
      (s : Store) (ex2 : CodeExchange) (now : ℕ)
      → IsSpent env ex family s
      → IsSpent env ex family (after s (exchange_code env s ex2 now))
  unfolding exchange_code
  exchange_code-IsSpent s ex2 now v =
      elim (Option-cases (find_where (redeemable env ex2 now) s.codes)) [
        | inl e ↦ rw (e, exchange_code) (replay_revokes (find_where (replayed env ex2) s.codes))
        | inr (c, e) ↦ rw (e, exchange_code) (redeem-IsSpent s ex2 now c e v)
      ]
    where
      revokes : (f : Option Text) → IsSpent env ex family (revoke_code_family now f s)
      revokes none = v
      revokes (some f) = revoke_family-IsSpent s now f v

      replay_revokes : (c : Option Code) → IsSpent env ex family (revoke_replayed now c s)
      replay_revokes none = v
      replay_revokes (some c) = revokes c.token_family

  issue_code-IsSpent :
      (s s' : Store) (code : Text) (row : Code)
      → s'.codes ≡ s.codes ++ row ∷ []
      → row.code_hash ≡ env.hash_token code
      → exists_where (λ c. c.code_hash =t= env.hash_token code) s.codes ≡ false
      → IsSpent env ex family s
      → IsSpent env ex family s'
  issue_code-IsSpent s s' code row codes named new v = record {
    rows = subst (All (SpentRow (env.hash_token ex.code) family)) (sym codes) (
        All-snoc _ s.codes row v.rows
          (λ q. absurd (clash (sym named ∙ =t=-eq row.code_hash (env.hash_token ex.code) q))));
    stored =
        ap (exists_where (bound_to env ex)) codes
        ∙ exists_where-snoc (bound_to env ex) s.codes row v.stored;
  }
    where
      stored_hash : exists_where (λ c. c.code_hash =t= env.hash_token ex.code) s.codes ≡ true
      stored_hash =
          exists_where_mono (bound_to env ex) (λ c. c.code_hash =t= env.hash_token ex.code) s.codes
            (λ c. bound_to-hash env ex c) v.stored

      clash : env.hash_token code ≡ env.hash_token ex.code → ⊥
      clash p = cc (ap (λ k. exists_where (λ c. c.code_hash =t= k) s.codes) p, stored_hash, new)

  revoke_principal_client-IsSpent :
      (s : Store) (principal : ℕ) (client : Text) (now : ℕ)
      → IsSpent env ex family s
      → IsSpent env ex family (revoke_principal_client principal client now s)
  unfolding revoke_principal_client
  revoke_principal_client-IsSpent s principal client now v = record {
    rows = delete_where-All (SpentRow (env.hash_token ex.code) family) _ s.codes v.rows;
    stored =
        exists_where-delete (bound_to env ex)
          (λ c. c.principal_id == principal && c.client_id =t= client && is_none c.consumed_at)
          s.codes
          (All-mono (SpentRow (env.hash_token ex.code) family) _
            (λ c h b. ground (arith, (h (bound_to-hash env ex c b)).0)) s.codes v.rows)
        ∙ v.stored;
  }

  rotate-IsSpent :
      (s : Store) (r : Rotation) (now : ℕ)
      → IsSpent env ex family s
      → IsSpent env ex family (after s (rotate env s r now))
  unfolding rotate
  rotate-IsSpent s r now v =
      elim (Option-cases (find_where (rotatable env r now) s.refresh_tokens)) [
        | inl e ↦
            rw (e, rotate) (replay_revokes (find_where (refresh_replayed env r) s.refresh_tokens))
        | inr (t, e) ↦
            rw (e, rotate)
              (after-cases (IsSpent env ex family) s (rotate_found env s r now t) v λ s' out h.
                elim (rotate_found-cases env s r now t s' out h) [
                  | inl (same, _) ↦ subst (IsSpent env ex family) (sym same) v
                  | inr (_, o) ↦ same_codes s s' o.codes v
                ])
      ]
    where
      replay_revokes :
          (t : Option RefreshToken) → IsSpent env ex family (revoke_replayed_refresh now t s)
      replay_revokes none = v
      replay_revokes (some t) = revoke_family-IsSpent s now t.token_family v

  authenticate-IsSpent :
      (s : Store) (token resource : Text) (now : ℕ)
      → IsSpent env ex family s
      → IsSpent env ex family (after s (authenticate env s token resource now))
  unfolding authenticate
  authenticate-IsSpent s token resource now v =
      elim (Option-cases (find_where (usable env token resource now) s.access_tokens)) [
        | inl e ↦ rw (e, authenticate) v
        | inr (t, e) ↦
            rw (e, authenticate)
              (after-cases (IsSpent env ex family) s (admit env s token resource now t) v λ s' a h.
                let (o, _) = admit-Admitted env s token resource now t s' a h in
                same_codes s s' o.codes v)
      ]

  revoke_token-IsSpent :
      (s : Store) (token client : Text) (now : ℕ)
      → IsSpent env ex family s
      → IsSpent env ex family (revoke_token env s token client now)
  unfolding revoke_token
  revoke_token-IsSpent s token client now v =
      elim (Option-cases (family_of_token (env.hash_token token) client s)) [
        | inl e ↦ rw (e, revoke_token) v
        | inr (f, e) ↦ rw (e, revoke_token) (revoke_family-IsSpent s now f v)
      ]

  revoke_client_tokens-IsSpent :
      (s : Store) (issuer subject client : Text) (now : ℕ)
      → IsSpent env ex family s
      → IsSpent env ex family
          (after_update s (revoke_client_tokens env s issuer subject client now))
  revoke_client_tokens-IsSpent s issuer subject client now v =
      after_update-cases (IsSpent env ex family) s
        (revoke_client_tokens env s issuer subject client now) v
        λ s' e.
          let (found, same) = revoke_client_tokens-ok env s issuer subject client now s' e in
          subst (IsSpent env ex family) (sym same) (revokes found)
    where
      revokes :
          (found : Option (Actor × ℕ)) → IsSpent env ex family (revoke_found client now found s)
      revokes none = v
      revokes (some (actor, id)) = revoke_principal_client-IsSpent s actor.principal.id client now v

  pub step-IsSpent :
      (s : Store) (c : Call) → IsSpent env ex family s → IsSpent env ex family (step env s c)
  unfolding step
  step-IsSpent s (registers id name uris now maximum) v =
      after-cases (IsSpent env ex family) s (register_client_bounded s id name uris now maximum) v
        λ s' b e.
          same_codes s s'
            (register_client_bounded-Registered s id name uris now maximum s' b e).codes v
  step-IsSpent s (issues code client grant challenge expires now principal id) v =
      after_update-cases (IsSpent env ex family) s
        (issue_code env s code client grant challenge expires now principal id) v
        λ s' e.
          let o =
            issue_code-Issued env s code client grant challenge expires now principal id s' e in
          issue_code-IsSpent s s' code o.row o.codes o.named o.new_code v
  step-IsSpent s (exchanges ex2 now) v = exchange_code-IsSpent s ex2 now v
  step-IsSpent s (authenticates token resource now) v = authenticate-IsSpent s token resource now v
  step-IsSpent s (rotates r now) v = rotate-IsSpent s r now v
  step-IsSpent s (revokes_client issuer subject client now) v =
      revoke_client_tokens-IsSpent s issuer subject client now v
  step-IsSpent s (revokes_token token client now) v = revoke_token-IsSpent s token client now v

  pub run-IsSpent :
      (s : Store) (cs : List Call) → IsSpent env ex family s → IsSpent env ex family (run env s cs)
  unfolding run
  run-IsSpent s [] v = v
  run-IsSpent s (c ∷ cs) v = run-IsSpent (step env s c) cs (step-IsSpent s c v)
