-- ===== src/Mcp/Store.antt =====
-- The tables of crates/marginalis-sqlite/src/mcp.rs (schema.sql) and the tests on their rows. Times
-- are Unix milliseconds. Token hashes are SHA-256 digests, by the parameter `hash_token`.
use marginalis.Prelude.{ℕ, Bool, ◌&&◌, List, Option, none, some, false}
use marginalis.Text.{Text, ◌=t=◌}
use marginalis.Domain.Identity.{ParsedUrl, is_none}
use marginalis.Tables.{update_where}
use marginalis.Principals.{IdentityRow}

-- What the store takes from the `sha2` and `url` crates.
pub record External : Type 0 where
  pub hash_token : Text → Text
  pub parse_url : Text → Option ParsedUrl

pub data RegistrationMethod : Type 0 where
  dynamic metadata_document : RegistrationMethod

pub record ClientRow : Type 0 where
  pub client_id : Text
  pub display_name : Text
  pub redirect_uris : List Text
  pub registration_method : RegistrationMethod
  pub registered_at : ℕ

pub record Code : Type 0 where
  pub code_hash : Text
  pub client_id : Text
  pub redirect_uri : Text
  pub redirect_uri_was_supplied : Bool
  pub resource_uri : Text
  pub principal_id : ℕ
  pub identity_id : ℕ
  pub scopes : Text
  pub code_challenge : Text
  pub expires_at : ℕ
  pub consumed_at : Option ℕ
  pub token_family : Option Text

pub record AccessToken : Type 0 where
  pub token_hash : Text
  pub client_id : Text
  pub resource_uri : Text
  pub principal_id : ℕ
  pub identity_id : ℕ
  pub scopes : Text
  pub expires_at : ℕ
  pub revoked_at : Option ℕ
  pub last_used_at : Option ℕ
  pub token_family : Text

pub record RefreshToken : Type 0 where
  pub token_hash : Text
  pub client_id : Text
  pub resource_uri : Text
  pub principal_id : ℕ
  pub identity_id : ℕ
  pub scopes : Text
  pub expires_at : ℕ
  pub rotated_at : Option ℕ
  pub revoked_at : Option ℕ
  pub token_family : Text

pub record ClientAuthorization : Type 0 where
  pub principal_id : ℕ
  pub client_id : Text
  pub granted_scopes : Text
  pub authorized_at : ℕ
  pub last_used_at : Option ℕ
  pub revoked_at : Option ℕ

pub record Store : Type 0 where
  pub identities : List IdentityRow
  pub clients : List ClientRow
  pub authorizations : List ClientAuthorization
  pub codes : List Code
  pub access_tokens : List AccessToken
  pub refresh_tokens : List RefreshToken

-- `redirect_uri = ?` at a parameter that may be NULL, which equals nothing.
abbrev pub equals_param : Text → Option Text → Bool
equals_param t none = false
equals_param t (some p) = t =t= p

abbrev pub some_equals : Option Text → Text → Bool
some_equals none t = false
some_equals (some f) t = f =t= t

abbrev pub access_has_hash : Text → AccessToken → Bool
access_has_hash h t = t.token_hash =t= h

abbrev pub refresh_has_hash : Text → RefreshToken → Bool
refresh_has_hash h t = t.token_hash =t= h

-- The two statements `UPDATE … SET revoked_at_ms = ? WHERE token_family_id = ? AND revoked_at_ms IS
-- NULL`.
abbrev pub live_access_of : Text → AccessToken → Bool
live_access_of family t = t.token_family =t= family && is_none t.revoked_at

abbrev pub live_refresh_of : Text → RefreshToken → Bool
live_refresh_of family t = t.token_family =t= family && is_none t.revoked_at

abbrev pub revoke_access : ℕ → AccessToken → AccessToken
revoke_access now t = record t { revoked_at = some now }

abbrev pub revoke_refresh : ℕ → RefreshToken → RefreshToken
revoke_refresh now t = record t { revoked_at = some now }

unfoldable pub revoke_family : ℕ → Text → Store → Store
revoke_family now family s = record s {
  access_tokens = update_where (live_access_of family) (revoke_access now) s.access_tokens;
  refresh_tokens = update_where (live_refresh_of family) (revoke_refresh now) s.refresh_tokens;
}
