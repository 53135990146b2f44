-- ===== src/Mcp/Exchange.antt =====
-- Authorization codes: `exchange_mcp_authorization_code` of crates/marginalis-sqlite/src/mcp.rs. A statement that the
-- database refuses rolls the transaction back: the caller keeps the store it had.
use marginalis.Prelude.{
  ℕ, Bool, true, false, not, ◌&&◌, ◌||◌, List, Option, none, some, ltb, if◌then◌else◌, Result, ok,
  ◌>>=◌,
}
use marginalis.Text.{Text, ◌=t=◌}
use marginalis.Text.Words.{split_whitespace, join_spaces}
use marginalis.Tables.{find_where, update_where, insert_row}
use marginalis.Domain.Identity.{Identity, is_none}
use marginalis.Principals.{StoreError, database, principal_from_identity_id}
use marginalis.Mcp.Store.{
  External, Code, AccessToken, RefreshToken, Store, equals_param, access_has_hash, refresh_has_hash,
  revoke_family,
}

-- `AuthorizationCodeExchange`.
pub record CodeExchange : Type 0 where
  pub code : Text
  pub client_id : Text
  pub redirect_uri : Option Text
  pub resource_uri : Text
  pub code_challenge : Text
  pub access_token : Text
  pub refresh_token : Text
  pub access_expires_at : ℕ
  pub refresh_expires_at : ℕ

-- `ResolvedRedirectUri`.
pub data RedirectUri : Type 0 where
  supplied inferred : Text → RedirectUri

abbrev pub redirect_text : RedirectUri → Text
redirect_text (supplied t) = t
redirect_text (inferred t) = t

abbrev pub was_supplied : RedirectUri → Bool
was_supplied (supplied t) = true
was_supplied (inferred t) = false

-- `AuthorizationGrant`.
pub record Grant : Type 0 where
  pub principal : Identity
  pub client_id : Text
  pub redirect_uri : RedirectUri
  pub resource_uri : Text
  pub scopes : List Text

-- The redirect URI has to be repeated if the authorization request gave it.
abbrev pub redirect_matches : Code → Option Text → Bool
redirect_matches c uri =
    if c.redirect_uri_was_supplied
    then equals_param c.redirect_uri uri
    else (is_none uri || equals_param c.redirect_uri uri)

-- The part of the `WHERE` clauses that binds a request to the code.
unfoldable pub bound_to : External → CodeExchange → Code → Bool
bound_to env ex c =
    c.code_hash =t= env.hash_token ex.code
    && c.client_id =t= ex.client_id
    && redirect_matches c ex.redirect_uri
    && c.resource_uri =t= ex.resource_uri
    && c.code_challenge =t= ex.code_challenge

abbrev pub redeemable : External → CodeExchange → ℕ → Code → Bool
redeemable env ex now c = bound_to env ex c && is_none c.consumed_at && ltb now c.expires_at

abbrev pub replayed : External → CodeExchange → Code → Bool
replayed env ex c = bound_to env ex c && not (is_none c.consumed_at) && not (is_none c.token_family)

abbrev pub consume : ℕ → Code → Code
consume now c = record c { consumed_at = some now }

abbrev pub revoke_code_family : ℕ → Option Text → Store → Store
revoke_code_family now none s = s
revoke_code_family now (some family) s = revoke_family now family s

abbrev pub revoke_replayed : ℕ → Option Code → Store → Store
revoke_replayed now none s = s
revoke_replayed now (some c) s = revoke_code_family now c.token_family s

abbrev resolved_redirect : Code → RedirectUri
resolved_redirect c =
    if c.redirect_uri_was_supplied then supplied c.redirect_uri else inferred c.redirect_uri

abbrev pub set_family : Text → Code → Code
set_family family c = record c { token_family = some family }

abbrev pub first_access : External → CodeExchange → Code → Text → AccessToken
first_access env ex c scopes = record {
  token_hash = env.hash_token ex.access_token;
  client_id = ex.client_id;
  resource_uri = ex.resource_uri;
  principal_id = c.principal_id;
  identity_id = c.identity_id;
  scopes = scopes;
  expires_at = ex.access_expires_at;
  revoked_at = none;
  last_used_at = none;
  token_family = env.hash_token ex.refresh_token;
}

abbrev pub first_refresh : External → CodeExchange → Code → Text → RefreshToken
first_refresh env ex c scopes = record {
  token_hash = env.hash_token ex.refresh_token;
  client_id = ex.client_id;
  resource_uri = ex.resource_uri;
  principal_id = c.principal_id;
  identity_id = c.identity_id;
  scopes = scopes;
  expires_at = ex.refresh_expires_at;
  rotated_at = none;
  revoked_at = none;
  token_family = env.hash_token ex.refresh_token;
}

-- The code is consumed, and the first pair of a family of tokens is stored.
unfoldable pub redeem :
    External → Store → CodeExchange → ℕ → Code → Result StoreError (Store × Option Grant)
redeem env s ex now c = do
  principal ← principal_from_identity_id env.parse_url s.identities c.identity_id
  let scopes = split_whitespace c.scopes
  let family = env.hash_token ex.refresh_token
  access ←
      insert_row database (access_has_hash (env.hash_token ex.access_token))
        (first_access env ex c (join_spaces scopes)) s.access_tokens
  refresh ←
      insert_row database (refresh_has_hash family) (first_refresh env ex c (join_spaces scopes))
        s.refresh_tokens
  ok (
    record s {
      codes =
          update_where (λ x. x.code_hash =t= env.hash_token ex.code) (set_family family)
            (update_where (redeemable env ex now) (consume now) s.codes);
      access_tokens = access;
      refresh_tokens = refresh;
    },
    some (record {
      principal = principal;
      client_id = ex.client_id;
      redirect_uri = resolved_redirect c;
      resource_uri = ex.resource_uri;
      scopes = scopes;
    }),
  )

-- `exchange_mcp_authorization_code`.
unfoldable pub exchange_code :
    External → Store → CodeExchange → ℕ → Result StoreError (Store × Option Grant)
exchange_code env s ex now = elim (find_where (redeemable env ex now) s.codes) [
  | none ↦ ok (revoke_replayed now (find_where (replayed env ex) s.codes) s, none)
  | some c ↦ redeem env s ex now c
]
