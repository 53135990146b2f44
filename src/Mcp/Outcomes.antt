-- ===== src/Mcp/Outcomes.antt =====
-- What the successful transactions of the token store change, table by table.
use marginalis.Prelude.{
  ℕ, ◌≡◌, ◌⊎◌, true, false, Bool-cases, inl, inr, [], ◌∷◌, ◌++◌, Option, some, arith, ok, >>=-eq-ok,
}
use marginalis.Text.{Text, ◌=t=◌}
use marginalis.Text.Words.{split_whitespace, join_spaces}
use marginalis.Tables.{update_where, exists_where, insert_row, insert_row-ok}
use marginalis.Domain.Identity.{Identity, Actor, new_identity}
use marginalis.Principals.{database, corrupt, resolve_in, principal_from_identity_id}
use marginalis.Mcp.Store.{
  External, Code, AccessToken, RefreshToken, Store, access_has_hash, refresh_has_hash,
}
use marginalis.Mcp.Exchange.{
  CodeExchange, Grant, redeem, redeemable, consume, set_family, first_access, first_refresh,
}
use marginalis.Mcp.Tokens.{
  Authenticated, admit, usable, touch_access, revoke_client_tokens, revoke_found, rotate_found,
  rotatable, Rotation, RotationOutcome, rotated, invalid_scope, all_in, next_access, next_refresh,
  mark_rotated, scopes_or,
}

-- The pair of tokens that a redeemed code brings.
abbrev pub granted_access : External → CodeExchange → Code → AccessToken
granted_access env ex c = first_access env ex c (join_spaces (split_whitespace c.scopes))

abbrev pub granted_refresh : External → CodeExchange → Code → RefreshToken
granted_refresh env ex c = first_refresh env ex c (join_spaces (split_whitespace c.scopes))

pub record Redeemed (env : External) (s : Store) (ex : CodeExchange) (now : ℕ) (c : Code)
    (s' : Store) : Type 0 where
  pub access : s'.access_tokens ≡ s.access_tokens ++ granted_access env ex c ∷ []
  pub refresh : s'.refresh_tokens ≡ s.refresh_tokens ++ granted_refresh env ex c ∷ []
  pub new_access :
      exists_where (access_has_hash (env.hash_token ex.access_token)) s.access_tokens ≡ false
  pub new_family :
      exists_where (refresh_has_hash (env.hash_token ex.refresh_token)) s.refresh_tokens ≡ false
  pub codes :
      s'.codes
      ≡ update_where
          (λ x. x.code_hash =t= env.hash_token ex.code)
          (set_family (env.hash_token ex.refresh_token))
          (update_where (redeemable env ex now) (consume now) s.codes)

pub redeem-Redeemed :
    (env : External) (s : Store) (ex : CodeExchange) (now : ℕ) (c : Code) (s' : Store)
    (g : Option Grant)
    → redeem env s ex now c ≡ ok (s', g)
    → Redeemed env s ex now c s'
unfolding redeem
redeem-Redeemed env s ex now c s' g e =
    let (who, _, e1) =
      >>=-eq-ok (principal_from_identity_id env.parse_url s.identities c.identity_id) _ e in
    let (access, a, e2) =
      >>=-eq-ok
        (insert_row database (access_has_hash (env.hash_token ex.access_token))
          (granted_access env ex c) s.access_tokens)
        _ e1 in
    let (refresh, r, e3) =
      >>=-eq-ok
        (insert_row database (refresh_has_hash (env.hash_token ex.refresh_token))
          (granted_refresh env ex c) s.refresh_tokens)
        _ e2 in
    let (ia, na) = insert_row-ok database _ (granted_access env ex c) s.access_tokens a in
    let (ir, nr) = insert_row-ok database _ (granted_refresh env ex c) s.refresh_tokens r in
    record {
      access = ground arith;
      refresh = ground arith;
      new_access = na;
      new_family = nr;
      codes = ground arith;
    }

abbrev pub rotated_access : External → Rotation → RefreshToken → AccessToken
rotated_access env r t =
    next_access env r t (scopes_or r.requested_scopes (split_whitespace t.scopes))

abbrev pub rotated_refresh : External → Rotation → RefreshToken → RefreshToken
rotated_refresh env r t = next_refresh env r t (split_whitespace t.scopes)

pub record Rotated (env : External) (s : Store) (r : Rotation) (now : ℕ) (t : RefreshToken)
    (s' : Store) : Type 0 where
  pub access : s'.access_tokens ≡ s.access_tokens ++ rotated_access env r t ∷ []
  pub refresh :
      s'.refresh_tokens
      ≡ update_where (rotatable env r now) (mark_rotated now) s.refresh_tokens
        ++ rotated_refresh env r t ∷ []
  pub new_refresh :
      exists_where
        (refresh_has_hash (env.hash_token r.new_refresh_token))
        (update_where (rotatable env r now) (mark_rotated now) s.refresh_tokens)
      ≡ false
  pub new_access :
      exists_where (access_has_hash (env.hash_token r.new_access_token)) s.access_tokens ≡ false
  pub codes : s'.codes ≡ s.codes
  pub narrowed :
      all_in (scopes_or r.requested_scopes (split_whitespace t.scopes)) (split_whitespace t.scopes)
      ≡ true

rotated_pair :
    (env : External) (s : Store) (r : Rotation) (now : ℕ) (t : RefreshToken) (s' : Store)
    (out : RotationOutcome)
    → all_in (scopes_or r.requested_scopes (split_whitespace t.scopes)) (split_whitespace t.scopes)
      ≡ true
    → rotate_found env s r now t ≡ ok (s', out)
    → (out ≡ rotated (scopes_or r.requested_scopes (split_whitespace t.scopes)))
      × Rotated env s r now t s'
unfolding rotate_found
rotated_pair env s r now t s' out n e =
    let (access, a, e1) =
      >>=-eq-ok
        (insert_row database (access_has_hash (env.hash_token r.new_access_token))
          (rotated_access env r t) s.access_tokens)
        _ (rw n at e) in
    let (refresh, f, e2) =
      >>=-eq-ok
        (insert_row database (refresh_has_hash (env.hash_token r.new_refresh_token))
          (rotated_refresh env r t)
          (update_where (rotatable env r now) (mark_rotated now) s.refresh_tokens))
        _ e1 in
    let (ia, na) = insert_row-ok database _ (rotated_access env r t) s.access_tokens a in
    let (ir, nr) =
      insert_row-ok database _ (rotated_refresh env r t)
        (update_where (rotatable env r now) (mark_rotated now) s.refresh_tokens) f in
    (
      ground arith,
      record {
        access = ground arith;
        refresh = ground arith;
        new_refresh = nr;
        new_access = na;
        codes = ground arith;
        narrowed = n;
      },
    )

-- A rotation that returns has either refused the scopes and changed nothing, or stored a new pair.
pub rotate_found-cases :
    (env : External) (s : Store) (r : Rotation) (now : ℕ) (t : RefreshToken) (s' : Store)
    (out : RotationOutcome)
    → rotate_found env s r now t ≡ ok (s', out)
    → ((s' ≡ s) × (out ≡ invalid_scope))
      ⊎ ((out ≡ rotated (scopes_or r.requested_scopes (split_whitespace t.scopes)))
          × Rotated env s r now t s')
rotate_found-cases env s r now t s' out e =
    elim (Bool-cases (
      all_in (scopes_or r.requested_scopes (split_whitespace t.scopes))
        (split_whitespace t.scopes))) [
          | inl n ↦ inr (rotated_pair env s r now t s' out n e)
          | inr n ↦ inl (refused n)
        ]
  where
    refused :
        all_in
            (scopes_or r.requested_scopes (split_whitespace t.scopes))
            (split_whitespace t.scopes)
          ≡ false
        → (s' ≡ s) × (out ≡ invalid_scope)
    refused n = unfold rotate_found in ground arith

pub record Admitted (env : External) (s : Store) (token resource : Text) (now : ℕ) (t : AccessToken)
    (s' : Store) : Type 0 where
  pub access :
      s'.access_tokens
      ≡ update_where (usable env token resource now) (touch_access now) s.access_tokens
  pub refresh : s'.refresh_tokens ≡ s.refresh_tokens
  pub codes : s'.codes ≡ s.codes

pub admit-Admitted :
    (env : External) (s : Store) (token resource : Text) (now : ℕ) (t : AccessToken) (s' : Store)
    (a : Option Authenticated)
    → admit env s token resource now t ≡ ok (s', a)
    → Admitted env s token resource now t s'
      × ((who : Identity) × (a
            ≡ some (record { principal = who; scopes = split_whitespace t.scopes })))
unfolding admit
admit-Admitted env s token resource now t s' a e =
    let (who, _, e1) =
      >>=-eq-ok (principal_from_identity_id env.parse_url s.identities t.identity_id) _ e in
    (
      record { access = ground arith; refresh = ground arith; codes = ground arith },
      (who, ground arith),
    )

pub revoke_client_tokens-ok :
    (env : External) (s : Store) (issuer subject client : Text) (now : ℕ) (s' : Store)
    → revoke_client_tokens env s issuer subject client now ≡ ok s'
    → (found : Option (Actor × ℕ)) × (s' ≡ revoke_found client now found s)
unfolding revoke_client_tokens
revoke_client_tokens-ok env s issuer subject client now s' e =
    let (identity, _, e1) = >>=-eq-ok (corrupt (new_identity env.parse_url issuer subject)) _ e in
    let (found, _, e2) = >>=-eq-ok (resolve_in env.parse_url s.identities identity) _ e1 in
    (found, ground arith)
