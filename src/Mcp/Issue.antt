-- ===== src/Mcp/Issue.antt =====
-- What the registration of a client and the issue of a code change.
use marginalis.Prelude.{
  ℕ, ◌≡◌, refl, Bool, false, List, [], ◌∷◌, ◌++◌, Option, arith, ok, >>=-eq-ok,
}
use marginalis.Text.{Text, ◌=t=◌}
use marginalis.Text.Words.{join_spaces}
use marginalis.Tables.{exists_where, insert_row, insert_row-ok}
use marginalis.Domain.Identity.{new_identity}
use marginalis.Principals.{database, corrupt, resolve_or_create_in}
use marginalis.Mcp.Store.{External, ClientRow, Code, Store}
use marginalis.Mcp.Exchange.{Grant, redirect_text, was_supplied}
use marginalis.Mcp.Registration.{upsert_client, register_client_bounded, issue_code}

-- The tables of tokens are left alone, and one code, with a new hash and not consumed, is added.
pub record Issued (env : External) (code : Text) (s s' : Store) : Type 0 where
  pub access : s'.access_tokens ≡ s.access_tokens
  pub refresh : s'.refresh_tokens ≡ s.refresh_tokens
  pub row : Code
  pub codes : s'.codes ≡ s.codes ++ row ∷ []
  pub named : row.code_hash ≡ env.hash_token code
  pub new_code : exists_where (λ c. c.code_hash =t= env.hash_token code) s.codes ≡ false

pub issue_code-Issued :
    (env : External) (s : Store) (code : Text) (client : ClientRow) (grant : Grant)
    (challenge : Text) (expires now principal id : ℕ) (s' : Store)
    → issue_code env s code client grant challenge expires now principal id ≡ ok s'
    → Issued env code s s'
unfolding issue_code
issue_code-Issued env s code client grant challenge expires now principal id s' e =
    let (identity, _, e1) =
      >>=-eq-ok
        (corrupt (new_identity env.parse_url grant.principal.issuer grant.principal.subject)) _ e in
    let ((identities, actor, row_id), _, e2) =
      >>=-eq-ok (resolve_or_create_in env.parse_url s.identities identity principal id) _ e1 in
    let (clients, _, e3) =
      >>=-eq-ok (upsert_client s.clients (record client { registered_at = now })) _ e2 in
    let row : Code = record {
      code_hash = env.hash_token code;
      client_id = client.client_id;
      redirect_uri = redirect_text grant.redirect_uri;
      redirect_uri_was_supplied = was_supplied grant.redirect_uri;
      resource_uri = grant.resource_uri;
      principal_id = actor.principal.id;
      identity_id = row_id;
      scopes = join_spaces grant.scopes;
      code_challenge = challenge;
      expires_at = expires;
      consumed_at = Option.none;
      token_family = Option.none;
    } in
    let (codes, c, e4) =
      >>=-eq-ok (insert_row database (λ c. c.code_hash =t= env.hash_token code) row s.codes) _ e3 in
    let (ic, nc) = insert_row-ok database _ row s.codes c in
    record {
      access = ground arith;
      refresh = ground arith;
      row = row;
      codes = ground arith;
      named = refl;
      new_code = nc;
    }

pub record Registered (s s' : Store) : Type 0 where
  pub access : s'.access_tokens ≡ s.access_tokens
  pub refresh : s'.refresh_tokens ≡ s.refresh_tokens
  pub codes : s'.codes ≡ s.codes

pub register_client_bounded-Registered :
    (s : Store) (id name : Text) (uris : List Text) (now maximum : ℕ) (s' : Store) (stored : Bool)
    → register_client_bounded s id name uris now maximum ≡ ok (s', stored)
    → Registered s s'
unfolding register_client_bounded
register_client_bounded-Registered s id name uris now maximum s' stored e = ground arith
