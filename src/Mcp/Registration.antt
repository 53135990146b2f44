-- ===== src/Mcp/Registration.antt =====
-- Clients and codes: `issue_mcp_authorization_code` and `register_mcp_client_bounded` of
-- crates/marginalis-sqlite/src/mcp.rs. A statement that the database refuses rolls the transaction back.
use marginalis.Prelude.{
  ℕ, Bool, true, false, ◌&&◌, ◌||◌, List, [], ◌∷◌, ◌++◌, Option, none, some, ltb, ◌==◌,
  if◌then◌else◌, Result, ok, err, ◌>>=◌,
}
use marginalis.Text.{Text, ◌=t=◌}
use marginalis.Text.Words.{split_ascii_whitespace, join_spaces}
use marginalis.Tables.{find_where, update_where, exists_where, count_where, insert_row}
use marginalis.Domain.Identity.{new_identity}
use marginalis.Principals.{StoreError, corrupt_data, database, corrupt, resolve_or_create_in}
use marginalis.Mcp.Store.{
  External, RegistrationMethod, dynamic, metadata_document, ClientRow, ClientAuthorization, Store,
}
use marginalis.Mcp.Exchange.{Grant, redirect_text, was_supplied}

abbrev pub same_method : RegistrationMethod → RegistrationMethod → Bool
same_method dynamic dynamic = true
same_method dynamic metadata_document = false
same_method metadata_document dynamic = false
same_method metadata_document metadata_document = true

-- `register_mcp_client_bounded`: whether the client was stored.
unfoldable pub register_client_bounded :
    Store → Text → Text → List Text → ℕ → ℕ → Result StoreError (Store × Bool)
register_client_bounded s client_id display_name redirect_uris now maximum =
    if ltb (count_where (λ c. same_method c.registration_method dynamic) s.clients) maximum
    then (do
      clients ←
          insert_row database (λ c. c.client_id =t= client_id)
            (record {
              client_id = client_id;
              display_name = display_name;
              redirect_uris = redirect_uris;
              registration_method = dynamic;
              registered_at = now;
            })
            s.clients
      ok (record s { clients = clients }, true))
    else ok (s, false)

-- `upsert_client`: a known client keeps its time of registration, and its method has to agree.
unfoldable pub upsert_client : List ClientRow → ClientRow → Result StoreError (List ClientRow)
upsert_client clients new = elim (find_where (λ c. c.client_id =t= new.client_id) clients) [
  | none ↦ ok (clients ++ new ∷ [])
  | some old ↦
      if same_method old.registration_method new.registration_method
      then ok (
          update_where (λ c. c.client_id =t= new.client_id)
            (λ c. record c { display_name = new.display_name; redirect_uris = new.redirect_uris })
            clients)
      else err corrupt_data
]

abbrev pub contains_text : List Text → Text → Bool
contains_text [] t = false
contains_text (x ∷ xs) t = x =t= t || contains_text xs t

-- `if !granted_scopes.contains(scope) { push }` for each scope.
unfoldable pub merge_scopes : List Text → List Text → List Text
merge_scopes granted [] = granted
merge_scopes granted (x ∷ xs) =
    merge_scopes (if contains_text granted x then granted else granted ++ x ∷ []) xs

abbrev previous_scopes : Option ClientAuthorization → Text
previous_scopes none = []
previous_scopes (some a) = a.granted_scopes

abbrev pub authorization_of : ℕ → Text → ClientAuthorization → Bool
authorization_of principal client a = a.principal_id == principal && a.client_id =t= client

-- `INSERT … ON CONFLICT (principal_id, client_id) DO UPDATE`.
unfoldable pub upsert_authorization :
    ℕ → Text → Text → ℕ → List ClientAuthorization → List ClientAuthorization
upsert_authorization principal client granted now rows =
    if exists_where (authorization_of principal client) rows
    then update_where (authorization_of principal client)
        (λ a. record a { granted_scopes = granted; authorized_at = now; revoked_at = none }) rows
    else rows
      ++ record {
        principal_id = principal;
        client_id = client;
        granted_scopes = granted;
        authorized_at = now;
        last_used_at = none;
        revoked_at = none;
      }
        ∷ []

-- `issue_mcp_authorization_code`. The two ids are those that SQLite gives to new rows.
unfoldable pub issue_code :
    External → Store → Text → ClientRow → Grant → Text → ℕ → ℕ → ℕ → ℕ → Result StoreError Store
issue_code env s code client grant challenge expires_at now new_principal new_id = do
  identity ← corrupt (new_identity env.parse_url grant.principal.issuer grant.principal.subject)
  (identities, actor, identity_id) ←
      resolve_or_create_in env.parse_url s.identities identity new_principal new_id
  clients ← upsert_client s.clients (record client { registered_at = now })
  let principal = actor.principal.id
  let previous =
      split_ascii_whitespace (
        previous_scopes (find_where (authorization_of principal client.client_id) s.authorizations))
  codes ←
      insert_row database (λ c. c.code_hash =t= env.hash_token code)
        (record {
          code_hash = env.hash_token code;
          client_id = client.client_id;
          redirect_uri = redirect_text grant.redirect_uri;
          redirect_uri_was_supplied = was_supplied grant.redirect_uri;
          resource_uri = grant.resource_uri;
          principal_id = principal;
          identity_id = identity_id;
          scopes = join_spaces grant.scopes;
          code_challenge = challenge;
          expires_at = expires_at;
          consumed_at = none;
          token_family = none;
        })
        s.codes
  ok (record s {
    identities = identities;
    clients = clients;
    authorizations =
        upsert_authorization principal client.client_id
          (join_spaces (merge_scopes previous grant.scopes)) now s.authorizations;
    codes = codes;
  })
