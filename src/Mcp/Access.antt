-- ===== src/Mcp/Access.antt =====
-- Rotations and revocations of tokens, and what authenticates afterwards.
use marginalis.Prelude.{
  ℕ, ◌≡◌, ◌<◌, refl, sym, ap, ◌∙◌, true, false, ◌&&◌, ◌==◌, Bool-cases, Option-cases, inl, inr,
  List, [], ◌∷◌, Option, none, some, arith, All, ok,
}
use marginalis.Text.{Text, ◌=t=◌, is_whitespace}
use marginalis.Text.Equality.{=t=-eq, =t=-refl}
use marginalis.Text.Words.{
  IsWord, split_whitespace, join_spaces, words_by-IsWord, words_by-join_spaces,
}
use marginalis.Tables.{
  find_where, find_where-test, find_where-none, find_where-snoc, exists_where-false_All, All-mono,
  All-trivial, update_where-All, delete_where-test,
}
use marginalis.Tables.Keys.{HasKeys, find_where-HasKeys}
use marginalis.Domain.Identity.{Identity, Actor, is_none, new_identity}
use marginalis.Principals.{resolve_in}
use marginalis.Mcp.Store.{
  External, AccessToken, RefreshToken, Store, revoke_family, live_access_of, revoke_access,
  revoke_refresh, access_has_hash,
}
use marginalis.Mcp.Tokens.{
  Rotation, rotated, rotatable, rotate, usable, authenticate, all_in, scopes_or, revoke_token,
  family_of_token, revoke_client_tokens, revoke_principal_client,
}
use marginalis.Mcp.Families.{IsRevoked, revoke_family-IsRevoked}
use marginalis.Mcp.Outcomes.{Rotated, rotate_found-cases, rotated_access}

-- The scopes that a rotation asks for are words.
abbrev pub AreWords : Option (List Text) → Type 0
AreWords none = Unit
AreWords (some ws) = All (IsWord is_whitespace) ws

scopes_or-words :
    (requested : Option (List Text)) (text : Text)
    → AreWords requested
    → All (IsWord is_whitespace) (scopes_or requested (split_whitespace text))
unfolding split_whitespace
scopes_or-words none text w = words_by-IsWord is_whitespace text
scopes_or-words (some ws) text w = w

split_whitespace-join_spaces :
    (ws : List Text) → All (IsWord is_whitespace) ws → split_whitespace (join_spaces ws) ≡ ws
unfolding split_whitespace
split_whitespace-join_spaces ws a = words_by-join_spaces is_whitespace ws refl a

-- A new access token that is usable, with the scopes, which the refresh token has.
pub record GivesAccess (env : External) (s s' : Store) (r : Rotation) (now later : ℕ)
    (scopes : List Text) : Type 0 where
  pub old : RefreshToken
  pub new : AccessToken
  pub rotates : find_where (rotatable env r now) s.refresh_tokens ≡ some old
  pub within : all_in scopes (split_whitespace old.scopes) ≡ true
  pub found :
      find_where (usable env r.new_access_token r.resource_uri later) s'.access_tokens ≡ some new
  pub grants : split_whitespace new.scopes ≡ scopes
  pub of_family : new.token_family ≡ old.token_family
  pub of_principal : new.principal_id ≡ old.principal_id
  pub of_client : new.client_id ≡ r.client_id

new_token_usable :
    (env : External) (s : Store) (r : Rotation) (t : RefreshToken) (later : ℕ)
    → later < r.access_expires_at
    → usable env r.new_access_token r.resource_uri later (rotated_access env r t) ≡ true
new_token_usable env s r t later h =
    ground (arith, =t=-refl (env.hash_token r.new_access_token), =t=-refl r.resource_uri)

-- After a rotation that returns scopes, and until the new access token expires, that token is found
-- usable at the resource. Its scopes are the ones returned, each of which the rotated refresh token
-- has, and it has that token's family and principal and the requesting client. Scopes that the
-- request names have to be words: not empty, and without whitespace.
pub rotate-GivesAccess :
    (env : External) (s : Store) (r : Rotation) (now later : ℕ) (s' : Store) (scopes : List Text)
    → AreWords r.requested_scopes
    → rotate env s r now ≡ ok (s', rotated scopes)
    → later < r.access_expires_at
    → GivesAccess env s s' r now later scopes
unfolding rotate
rotate-GivesAccess env s r now later s' scopes w e h =
    elim (Option-cases (find_where (rotatable env r now) s.refresh_tokens)) [
      | inl n ↦ absurd (ground (arith, n))
      | inr (t, n) ↦
          elim (rotate_found-cases env s r now t s' (rotated scopes) (rw (n, rotate) at e)) [
            | inl (_, wrong) ↦ absurd cc
            | inr (same, o) ↦ gives t n (scopes_eq same) o
          ]
    ]
  where
    scopes_eq : {xs ys : List Text} → rotated xs ≡ rotated ys → xs ≡ ys
    scopes_eq p = cc

    gives :
        (t : RefreshToken)
        → find_where (rotatable env r now) s.refresh_tokens ≡ some t
        → scopes ≡ scopes_or r.requested_scopes (split_whitespace t.scopes)
        → Rotated env s r now t s'
        → GivesAccess env s s' r now later scopes
    gives t n same o = record {
      old = t;
      new = rotated_access env r t;
      rotates = n;
      within = ap (λ ws. all_in ws (split_whitespace t.scopes)) same ∙ o.narrowed;
      found =
          ap (find_where (usable env r.new_access_token r.resource_uri later)) o.access
          ∙ find_where-snoc (usable env r.new_access_token r.resource_uri later) s.access_tokens
              (rotated_access env r t)
              (All-mono (λ y. access_has_hash (env.hash_token r.new_access_token) y ≡ false) _
                (λ y d. ground arith) s.access_tokens
                (exists_where-false_All _ s.access_tokens o.new_access))
              (new_token_usable env s r t later h);
      grants =
          split_whitespace-join_spaces (scopes_or r.requested_scopes (split_whitespace t.scopes))
            (scopes_or-words r.requested_scopes t.scopes w)
          ∙ sym same;
      of_family = refl;
      of_principal = refl;
      of_client = refl;
    }

-- No live row of a revoked family that has the hash is usable, and there is no other.
unusable :
    (env : External) (s : Store) (token resource : Text) (now : ℕ) (family : Text)
    → All (λ t. live_access_of family t ≡ false) s.access_tokens
    → All
        (λ t. (t.token_hash =t= env.hash_token token) ≡ true → t.token_family ≡ family)
        s.access_tokens
    → find_where (usable env token resource now) s.access_tokens ≡ none
unusable env s token resource now family dead named =
    find_where-none _ s.access_tokens (both s.access_tokens dead named)
  where
    row :
        (t : AccessToken)
        → live_access_of family t ≡ false
        → ((t.token_hash =t= env.hash_token token) ≡ true → t.token_family ≡ family)
        → usable env token resource now t ≡ false
    row t d n = elim (Bool-cases (t.token_hash =t= env.hash_token token)) [
      | inl h ↦ ground (arith, ap (λ k. k =t= family) (n h), =t=-refl family)
      | inr h ↦ ground arith
    ]

    both :
        (ts : List AccessToken)
        → All (λ t. live_access_of family t ≡ false) ts
        → All (λ t. (t.token_hash =t= env.hash_token token) ≡ true → t.token_family ≡ family) ts
        → All (λ t. usable env token resource now t ≡ false) ts
    both [] d n = tt
    both (t ∷ ts) d n = (row t d.0 n.0, both ts d.1 n.1)

-- After the revocation of an access token that its client names, the token authenticates nobody, at no
-- resource and no time, and no access or refresh token of its family is live. No two access tokens may
-- have the same hash.
pub revoke_token-authenticate :
    (env : External) (s : Store) (token client resource : Text) (now later : ℕ) (t : AccessToken)
    → HasKeys (λ x. x.token_hash) s.access_tokens
    → find_where
        (λ x. x.token_hash =t= env.hash_token token && x.client_id =t= client)
        s.access_tokens
      ≡ some t
    → (authenticate env (revoke_token env s token client now) token resource later
        ≡ ok (revoke_token env s token client now, none))
      × IsRevoked t.token_family (revoke_token env s token client now)
unfolding revoke_token family_of_token revoke_family authenticate
revoke_token-authenticate env s token client resource now later t keys e =
    let dead = revoke_family-IsRevoked now t.token_family s in
    rw (e, revoke_token, family_of_token)
      (
        rw
            (
              unusable env (revoke_family now t.token_family s) token resource later t.token_family
                  dead.access
                  (update_where-All _
                    (λ x.
                      (x.token_hash =t= env.hash_token token) ≡ true
                      → x.token_family ≡ t.token_family)
                    (live_access_of t.token_family) (revoke_access now) (λ x h _. h) (λ x h _. h)
                    s.access_tokens named),
              authenticate,
            )
            refl,
        dead,
      )
  where
    hash_eq : t.token_hash ≡ env.hash_token token
    hash_eq =
        =t=-eq t.token_hash (env.hash_token token)
          (ground (arith, find_where-test _ s.access_tokens t e))

    named :
        All
          (λ x. (x.token_hash =t= env.hash_token token) ≡ true → x.token_family ≡ t.token_family)
          s.access_tokens
    named =
        All-mono (λ x. (x.token_hash =t= t.token_hash) ≡ true → x.token_family ≡ t.token_family) _
          (λ x h q. h (ap (λ k. x.token_hash =t= k) hash_eq ∙ q)) s.access_tokens
          (find_where-HasKeys (λ x. x.token_hash) (λ x. x.token_family ≡ t.token_family) _
            s.access_tokens t keys e refl)

-- No token of the principal at the client is live, and no code of it waits.
pub record IsCutOff (principal : ℕ) (client : Text) (s : Store) : Type 0 where
  pub access :
      All
        (λ t.
          (t.principal_id == principal && t.client_id =t= client && is_none t.revoked_at) ≡ false)
        s.access_tokens
  pub refresh :
      All
        (λ t.
          (t.principal_id == principal && t.client_id =t= client && is_none t.revoked_at) ≡ false)
        s.refresh_tokens
  pub codes :
      All
        (λ c.
          (c.principal_id == principal && c.client_id =t= client && is_none c.consumed_at) ≡ false)
        s.codes

revoke_principal_client-IsCutOff :
    (principal : ℕ) (client : Text) (now : ℕ) (s : Store)
    → IsCutOff principal client (revoke_principal_client principal client now s)
unfolding revoke_principal_client
revoke_principal_client-IsCutOff principal client now s = record {
  access =
      update_where-All (λ _. Unit {0}) _ _ (revoke_access now) (λ t _ _. ground arith) (λ t _ h. h)
        s.access_tokens (All-trivial _ (λ _. tt) _);
  refresh =
      update_where-All (λ _. Unit {0}) _ _ (revoke_refresh now) (λ t _ _. ground arith) (λ t _ h. h)
        s.refresh_tokens (All-trivial _ (λ _. tt) _);
  codes = delete_where-test _ s.codes;
}

-- When a user who is known disconnects a client, the call succeeds, and then no access or refresh
-- token of the user's principal at that client is live and no authorization code of it waits to be
-- exchanged, whichever of the principal's identities issued them.
pub revoke_client_tokens-IsCutOff :
    (env : External) (s : Store) (issuer subject client : Text) (now : ℕ) (identity : Identity)
    (actor : Actor) (id : ℕ)
    → new_identity env.parse_url issuer subject ≡ ok identity
    → resolve_in env.parse_url s.identities identity ≡ ok (some (actor, id))
    → (s' : Store) × (revoke_client_tokens env s issuer subject client now ≡ ok s')
      × IsCutOff actor.principal.id client s'
unfolding revoke_client_tokens
revoke_client_tokens-IsCutOff env s issuer subject client now identity actor id i e = (
  revoke_principal_client actor.principal.id client now s,
  rw (i, e, revoke_client_tokens) refl,
  revoke_principal_client-IsCutOff actor.principal.id client now s,
)
