-- ===== src/Mcp/Examples.antt =====
-- Runs of the token store on a small store, and the theorems at that store.
use marginalis.Prelude.{
  ℕ, ◌⊎◌, max, ◌≡◌, ◌≤◌, ◌<◌, refl, [], ◌∷◌, none, some, true, false, ok, ◌||◌, arith, suc,
}
use marginalis.Text.{codes}
use marginalis.Text.Words.{words_by, split_whitespace, split_ascii_whitespace, join_spaces}
use marginalis.Domain.Identity.{
  ParsedUrl, Identity, Actor, issuer_valid, subject_valid, validate_identity, new_identity,
  contains_identity, any_repeated, restore_principal, authenticate_actor, new_principal_id,
}
use marginalis.Principals.{resolve_row, resolve_in, principal_from_identity_id}
use marginalis.Mcp.Store.{External, Code, AccessToken, Store, revoke_family}
use marginalis.Mcp.Exchange.{CodeExchange, Grant, inferred, bound_to, redeem, exchange_code}
use marginalis.Mcp.Registration.{register_client_bounded, contains_text, merge_scopes}
use marginalis.Mcp.Tokens.{
  Rotation, rotated, invalid_token, names_refresh, rotate, rotate_found, all_in, authenticate,
  admit, revoke_token, family_of_token, revoke_client_tokens, revoke_principal_client,
}
use marginalis.Mcp.Calls.{rotates, exchanges, run, step, after}
use marginalis.Mcp.Families.{IsRevoked, IsRetired}
use marginalis.Mcp.Retired.{run-IsRetired}
use marginalis.Mcp.Replay.{code_redeemed_once, code_replay_revokes}
use marginalis.Mcp.Access.{
  GivesAccess, rotate-GivesAccess, revoke_token-authenticate, IsCutOff,
  revoke_client_tokens-IsCutOff,
}
use marginalis.Mcp.Clients.{
  dynamic_clients, register_client_bounded_lem, AreDistinct, merge_scopes_lem,
}

-- What a run of the operations computes with.
running : ℕ
unfolding words_by split_whitespace split_ascii_whitespace join_spaces issuer_valid subject_valid
    validate_identity new_identity contains_identity any_repeated restore_principal
    authenticate_actor new_principal_id resolve_row resolve_in principal_from_identity_id
    revoke_family bound_to redeem exchange_code register_client_bounded merge_scopes names_refresh
    rotate rotate_found all_in authenticate admit revoke_token family_of_token revoke_client_tokens
    revoke_principal_client run step
running = 0

abbrev url : ParsedUrl
url = record {
  scheme = codes "https";
  cannot_be_a_base = false;
  username = [];
  password = none;
  query = none;
  fragment = none;
  host = some (codes "idp");
  port = none;
}

-- Tokens stand for their hashes, and every text is the same URL.
abbrev env : External
env = record { hash_token = λ t. t; parse_url = λ t. some url }

abbrev alice : Identity
alice = record { issuer = codes "https://idp"; subject = codes "alice" }

abbrev code : Code
code = record {
  code_hash = codes "code";
  client_id = codes "app";
  redirect_uri = codes "https://app/back";
  redirect_uri_was_supplied = false;
  resource_uri = codes "https://notes/mcp";
  principal_id = 1;
  identity_id = 7;
  scopes = codes "read write";
  code_challenge = codes "challenge";
  expires_at = 100;
  consumed_at = none;
  token_family = none;
}

abbrev store : Store
store = record {
  identities =
      record { identity_id = 7; principal_id = 1; identity = alice; is_primary = true } ∷ [];
  clients = [];
  authorizations = [];
  codes = code ∷ [];
  access_tokens = [];
  refresh_tokens = [];
}

abbrev exchange : CodeExchange
exchange = record {
  code = codes "code";
  client_id = codes "app";
  redirect_uri = none;
  resource_uri = codes "https://notes/mcp";
  code_challenge = codes "challenge";
  access_token = codes "a1";
  refresh_token = codes "r1";
  access_expires_at = 60;
  refresh_expires_at = 900;
}

abbrev granted : Store
granted = after store (exchange_code env store exchange 50)

abbrev grant : Grant
grant = record {
  principal = alice;
  client_id = codes "app";
  redirect_uri = inferred (codes "https://app/back");
  resource_uri = codes "https://notes/mcp";
  scopes = codes "read" ∷ codes "write" ∷ [];
}

exchanged : exchange_code env store exchange 50 ≡ ok (granted, some grant)
unfolding running
exchanged = refl

-- An expired code gives nothing.
expired : exchange_code env store exchange 100 ≡ ok (store, none)
unfolding running
expired = refl

abbrev rotation : Rotation
rotation = record {
  refresh_token = codes "r1";
  client_id = codes "app";
  resource_uri = codes "https://notes/mcp";
  requested_scopes = some (codes "read" ∷ []);
  new_access_token = codes "a2";
  new_refresh_token = codes "r2";
  access_expires_at = 80;
  refresh_expires_at = 990;
}

abbrev rolled : Store
rolled = after granted (rotate env granted rotation 55)

rolled_ok : rotate env granted rotation 55 ≡ ok (rolled, rotated (codes "read" ∷ []))
unfolding running
rolled_ok = refl

-- A rotated token that is presented again revokes its family.
abbrev stopped : Store
stopped = after rolled (rotate env rolled rotation 56)

stopped_ok :
    rotate env rolled rotation 56 ≡ ok (revoke_family 56 (codes "r1") rolled, invalid_token)
unfolding running
stopped_ok = refl

stopped-IsRetired : IsRetired (codes "r1") stopped
unfolding running
stopped-IsRetired = record {
  revoked = record { access = (refl, (refl, tt)); refresh = (refl, (refl, tt)) };
  founded = refl;
}

code_redeemed_once_example :
    (t : Store) × (exchange_code env (run env granted (rotates rotation 55 ∷ [])) exchange 56
      ≡ ok (t, none))
code_redeemed_once_example =
    code_redeemed_once env store exchange 50 granted grant (rotates rotation 55 ∷ []) exchange 56
      (refl, tt) exchanged refl

code_replay_revokes_example :
    (t : Store) × (exchange_code env (run env granted (rotates rotation 55 ∷ [])) exchange 56
      ≡ ok (t, none))
    × IsRevoked (codes "r1") t
code_replay_revokes_example =
    code_replay_revokes env store exchange 50 granted grant (rotates rotation 55 ∷ []) 56 (refl, tt)
      exchanged

run-IsRetired_example :
    IsRetired (codes "r1") (run env stopped (rotates rotation 57 ∷ exchanges exchange 58 ∷ []))
run-IsRetired_example =
    run-IsRetired env stopped (rotates rotation 57 ∷ exchanges exchange 58 ∷ []) (codes "r1")
      stopped-IsRetired

rotate-GivesAccess_example : GivesAccess env granted rolled rotation 55 79 (codes "read" ∷ [])
rotate-GivesAccess_example =
    rotate-GivesAccess env granted rotation 55 79 rolled (codes "read" ∷ [])
      (((λ e. cc), (refl, (refl, (refl, (refl, tt))))), tt) rolled_ok (omega arith)

abbrev first_token : AccessToken
first_token = record {
  token_hash = codes "a1";
  client_id = codes "app";
  resource_uri = codes "https://notes/mcp";
  principal_id = 1;
  identity_id = 7;
  scopes = codes "read write";
  expires_at = 60;
  revoked_at = none;
  last_used_at = none;
  token_family = codes "r1";
}

abbrev granted_text : Store
granted_text = record {
  identities = store.identities;
  clients = [];
  authorizations = [];
  codes = [];
  access_tokens = first_token ∷ [];
  refresh_tokens = [];
}

revoke_token-authenticate_example :
    (authenticate env
        (revoke_token env granted_text (codes "a1") (codes "app") 51)
        (codes "a1")
        (codes "https://notes/mcp")
        52
      ≡ ok (revoke_token env granted_text (codes "a1") (codes "app") 51, none))
    × IsRevoked (codes "r1") (revoke_token env granted_text (codes "a1") (codes "app") 51)
revoke_token-authenticate_example =
    revoke_token-authenticate env granted_text (codes "a1") (codes "app")
      (codes "https://notes/mcp") 51 52 first_token (refl, tt) refl

abbrev actor : Actor
actor = record {
  principal = record { id = 1; primary_identity = alice };
  authenticated_identity = alice;
}

alice_known : resolve_in env.parse_url store.identities alice ≡ ok (some (actor, 7))
unfolding running
alice_known = refl

alice_valid : new_identity env.parse_url (codes "https://idp") (codes "alice") ≡ ok alice
unfolding running
alice_valid = refl

revoke_client_tokens-IsCutOff_example :
    (s' : Store) × (revoke_client_tokens env store
        (codes "https://idp")
        (codes "alice")
        (codes "app")
        51
      ≡ ok s')
    × IsCutOff 1 (codes "app") s'
revoke_client_tokens-IsCutOff_example =
    revoke_client_tokens-IsCutOff env store (codes "https://idp") (codes "alice") (codes "app") 51
      alice actor 7 alice_valid alice_known

abbrev registered : Store
registered = after store (register_client_bounded store (codes "app") (codes "App") [] 5 1)

registered_ok :
    register_client_bounded store (codes "app") (codes "App") [] 5 1 ≡ ok (registered, true)
unfolding running
registered_ok = refl

register_client_bounded_lem_example :
    (((true ≡ true)
        × (dynamic_clients registered ≡ suc (dynamic_clients store))
        × (dynamic_clients store < 1))
      ⊎ ((true ≡ false) × (registered ≡ store) × (1 ≤ dynamic_clients store)))
    × (dynamic_clients registered ≤ max (dynamic_clients store) 1)
register_client_bounded_lem_example =
    register_client_bounded_lem store (codes "app") (codes "App") [] 5 1 registered true
      registered_ok

merge_scopes_lem_example :
    (contains_text
        (merge_scopes (codes "read" ∷ []) (codes "write" ∷ codes "read" ∷ []))
        (codes "write")
      ≡ (contains_text (codes "read" ∷ []) (codes "write")
          || contains_text (codes "write" ∷ codes "read" ∷ []) (codes "write")))
    × AreDistinct (merge_scopes (codes "read" ∷ []) (codes "write" ∷ codes "read" ∷ []))
merge_scopes_lem_example =
    merge_scopes_lem (codes "read" ∷ []) (codes "write" ∷ codes "read" ∷ []) (codes "write")
      (refl, tt)
