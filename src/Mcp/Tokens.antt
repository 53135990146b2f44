-- ===== src/Mcp/Tokens.antt =====
-- Access and refresh tokens: `authenticate_mcp_access_token`, `rotate_mcp_refresh_token`,
-- `revoke_mcp_client_tokens` and `revoke_mcp_token` of crates/marginalis-sqlite/src/mcp.rs.
use marginalis.Prelude.{
  ℕ, Bool, true, not, ◌&&◌, List, [], ◌∷◌, Option, none, some, ltb, max, ◌==◌, if◌then◌else◌,
  Result, ok, ◌>>=◌,
}
use marginalis.Text.{Text, ◌=t=◌}
use marginalis.Text.Words.{split_whitespace, join_spaces}
use marginalis.Tables.{find_where, update_where, delete_where, insert_row}
use marginalis.Domain.Identity.{Identity, Actor, is_none, new_identity}
use marginalis.Principals.{StoreError, database, corrupt, principal_from_identity_id, resolve_in}
use marginalis.Mcp.Store.{
  External, AccessToken, RefreshToken, ClientAuthorization, Store, access_has_hash,
  refresh_has_hash, revoke_access, revoke_refresh, revoke_family,
}
use marginalis.Mcp.Registration.{authorization_of, contains_text}

-- `AuthenticatedPrincipal`.
pub record Authenticated : Type 0 where
  pub principal : Identity
  pub scopes : List Text

abbrev pub usable : External → Text → Text → ℕ → AccessToken → Bool
usable env token resource now t =
    t.token_hash =t= env.hash_token token
    && t.resource_uri =t= resource
    && is_none t.revoked_at
    && ltb now t.expires_at

-- `MAX(COALESCE(last_used_at_ms, now), now)`.
abbrev later_use : ℕ → Option ℕ → Option ℕ
later_use now none = some now
later_use now (some t) = some (max t now)

abbrev pub touch_access : ℕ → AccessToken → AccessToken
touch_access now t = record t { last_used_at = some now }

abbrev touch_authorization : ℕ → ClientAuthorization → ClientAuthorization
touch_authorization now a = record a { last_used_at = later_use now a.last_used_at }

-- A usable token gives its principal and its scopes, and notes its use.
unfoldable pub admit :
    External
    → Store
    → Text
    → Text
    → ℕ
    → AccessToken
    → Result StoreError (Store × Option Authenticated)
admit env s token resource now t = do
  principal ← principal_from_identity_id env.parse_url s.identities t.identity_id
  ok (
    record s {
      access_tokens =
          update_where (usable env token resource now) (touch_access now) s.access_tokens;
      authorizations =
          update_where (authorization_of t.principal_id t.client_id) (touch_authorization now)
            s.authorizations;
    },
    some (record { principal = principal; scopes = split_whitespace t.scopes }),
  )

-- `authenticate_mcp_access_token`.
unfoldable pub authenticate :
    External → Store → Text → Text → ℕ → Result StoreError (Store × Option Authenticated)
authenticate env s token resource now =
    elim (find_where (usable env token resource now) s.access_tokens) [
      | none ↦ ok (s, none)
      | some t ↦ admit env s token resource now t
    ]

-- `RefreshTokenRotation`.
pub record Rotation : Type 0 where
  pub refresh_token : Text
  pub client_id : Text
  pub resource_uri : Text
  pub requested_scopes : Option (List Text)
  pub new_access_token : Text
  pub new_refresh_token : Text
  pub access_expires_at : ℕ
  pub refresh_expires_at : ℕ

-- `RefreshTokenRotationOutcome`.
pub data RotationOutcome : Type 0 where
  rotated : List Text → RotationOutcome
  invalid_token invalid_scope : RotationOutcome

unfoldable pub names_refresh : External → Rotation → RefreshToken → Bool
names_refresh env r t =
    t.token_hash =t= env.hash_token r.refresh_token
    && t.client_id =t= r.client_id
    && t.resource_uri =t= r.resource_uri

abbrev pub rotatable : External → Rotation → ℕ → RefreshToken → Bool
rotatable env r now t =
    names_refresh env r t && is_none t.rotated_at && is_none t.revoked_at && ltb now t.expires_at

abbrev pub refresh_replayed : External → Rotation → RefreshToken → Bool
refresh_replayed env r t =
    names_refresh env r t && not (is_none t.rotated_at) && is_none t.revoked_at

abbrev pub mark_rotated : ℕ → RefreshToken → RefreshToken
mark_rotated now t = record t { rotated_at = some now }

abbrev pub revoke_replayed_refresh : ℕ → Option RefreshToken → Store → Store
revoke_replayed_refresh now none s = s
revoke_replayed_refresh now (some t) s = revoke_family now t.token_family s

abbrev pub scopes_or : Option (List Text) → List Text → List Text
scopes_or none original = original
scopes_or (some requested) original = requested

unfoldable pub all_in : List Text → List Text → Bool
all_in [] original = true
all_in (x ∷ xs) original = contains_text original x && all_in xs original

abbrev pub next_access : External → Rotation → RefreshToken → List Text → AccessToken
next_access env r t scopes = record {
  token_hash = env.hash_token r.new_access_token;
  client_id = r.client_id;
  resource_uri = r.resource_uri;
  principal_id = t.principal_id;
  identity_id = t.identity_id;
  scopes = join_spaces scopes;
  expires_at = r.access_expires_at;
  revoked_at = none;
  last_used_at = none;
  token_family = t.token_family;
}

abbrev pub next_refresh : External → Rotation → RefreshToken → List Text → RefreshToken
next_refresh env r t scopes = record {
  token_hash = env.hash_token r.new_refresh_token;
  client_id = r.client_id;
  resource_uri = r.resource_uri;
  principal_id = t.principal_id;
  identity_id = t.identity_id;
  scopes = join_spaces scopes;
  expires_at = r.refresh_expires_at;
  rotated_at = none;
  revoked_at = none;
  token_family = t.token_family;
}

-- The token is marked as rotated, and a new pair of its family is stored. A scope that the token
-- does not have rolls the transaction back.
unfoldable pub rotate_found :
    External → Store → Rotation → ℕ → RefreshToken → Result StoreError (Store × RotationOutcome)
rotate_found env s r now t =
    let original = split_whitespace t.scopes in
    let scopes = scopes_or r.requested_scopes original in
    if not (all_in scopes original) then ok (s, invalid_scope) else (do
      access ←
          insert_row database (access_has_hash (env.hash_token r.new_access_token))
            (next_access env r t scopes) s.access_tokens
      refresh ←
          insert_row database (refresh_has_hash (env.hash_token r.new_refresh_token))
            (next_refresh env r t original)
            (update_where (rotatable env r now) (mark_rotated now) s.refresh_tokens)
      ok (record s { access_tokens = access; refresh_tokens = refresh }, rotated scopes))

-- `rotate_mcp_refresh_token`.
unfoldable pub rotate :
    External → Store → Rotation → ℕ → Result StoreError (Store × RotationOutcome)
rotate env s r now = elim (find_where (rotatable env r now) s.refresh_tokens) [
  | none ↦ ok (
    revoke_replayed_refresh now (find_where (refresh_replayed env r) s.refresh_tokens) s,
    invalid_token,
  )
  | some t ↦ rotate_found env s r now t
]

-- `revoke_mcp_client_tokens`, for a principal that was found.
unfoldable pub revoke_principal_client : ℕ → Text → ℕ → Store → Store
revoke_principal_client principal client now s = record s {
  access_tokens =
      update_where
        (λ t. t.principal_id == principal && t.client_id =t= client && is_none t.revoked_at)
        (revoke_access now) s.access_tokens;
  refresh_tokens =
      update_where
        (λ t. t.principal_id == principal && t.client_id =t= client && is_none t.revoked_at)
        (revoke_refresh now) s.refresh_tokens;
  codes =
      delete_where
        (λ c. c.principal_id == principal && c.client_id =t= client && is_none c.consumed_at)
        s.codes;
  authorizations =
      update_where (authorization_of principal client) (λ a. record a { revoked_at = some now })
        s.authorizations;
}

abbrev pub revoke_found : Text → ℕ → Option (Actor × ℕ) → Store → Store
revoke_found client now none s = s
revoke_found client now (some (actor, id)) s =
    revoke_principal_client actor.principal.id client now s

unfoldable pub revoke_client_tokens :
    External → Store → Text → Text → Text → ℕ → Result StoreError Store
revoke_client_tokens env s issuer subject client now = do
  identity ← corrupt (new_identity env.parse_url issuer subject)
  found ← resolve_in env.parse_url s.identities identity
  ok (revoke_found client now found s)

-- The family of the access token, or else of the refresh token, with this hash.
unfoldable pub family_of_token : Text → Text → Store → Option Text
family_of_token hash client s =
    elim (find_where (λ t. t.token_hash =t= hash && t.client_id =t= client) s.access_tokens) [
      | some a ↦ some a.token_family
      | none ↦
          elim (find_where (λ t. t.token_hash =t= hash && t.client_id =t= client)
            s.refresh_tokens) [ some b ↦ some b.token_family | none ↦ none ]
    ]

-- `revoke_mcp_token`: an unknown token is no error.
unfoldable pub revoke_token : External → Store → Text → Text → ℕ → Store
revoke_token env s token client now = elim (family_of_token (env.hash_token token) client s) [
  | none ↦ s
  | some family ↦ revoke_family now family s
]
