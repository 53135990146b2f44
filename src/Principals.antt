-- ===== src/Principals.antt =====
-- crates/marginalis-sqlite/src/principal.rs: the table of external identities and the principals that
-- they belong to. The row ids of new rows, which SQLite chooses, are arguments.
use marginalis.Prelude.{
  ℕ, Bool, true, ◌&&◌, List, [], ◌∷◌, ◌++◌, Option, none, some, ◌==◌, Result, ok, err, ◌>>=◌, ok_or,
  if◌then◌else◌,
}
use marginalis.Text.{Text}
use marginalis.Tables.{find_where}
use marginalis.Domain.Identity.{
  ParsedUrl, Identity, Actor, new_identity, same_identity, restore_principal, authenticate_actor,
  new_principal_id, for_single_identity,
}

-- `SqliteStoreError`: data that breaks a rule of the model, a refused statement, and the two answers to
-- a change of a note that finds no row.
pub data StoreError : Type 0 where
  corrupt_data database not_found conflict : StoreError

pub record IdentityRow : Type 0 where
  pub identity_id : ℕ
  pub principal_id : ℕ
  pub identity : Identity
  pub is_primary : Bool

abbrev pub corrupt {ℓ} : {E : Type 0} {A : Type ℓ} → Result E A → Result StoreError A
corrupt (err x) = err corrupt_data
corrupt (ok v) = ok v

-- The identities that `Principal::restore` is given: the primary one and the one that logged in.
abbrev bound_identities : Identity → Identity → List Identity
bound_identities primary identity =
    if same_identity primary identity then identity ∷ [] else primary ∷ identity ∷ []

unfoldable pub resolve_row :
    (Text → Option ParsedUrl)
    → List IdentityRow
    → Identity
    → IdentityRow
    → Result StoreError (Actor × ℕ)
resolve_row parse_url rows identity matched = do
  principal_id ← corrupt (new_principal_id matched.principal_id)
  primary ←
      ok_or (find_where (λ r. r.principal_id == matched.principal_id && r.is_primary) rows)
        corrupt_data
  checked ← corrupt (new_identity parse_url primary.identity.issuer primary.identity.subject)
  principal ← corrupt (restore_principal principal_id checked (bound_identities checked identity))
  actor ← corrupt (authenticate_actor principal identity)
  ok (actor, matched.identity_id)

abbrev resolved :
    (Text → Option ParsedUrl)
    → List IdentityRow
    → Identity
    → Option IdentityRow
    → Result StoreError (Option (Actor × ℕ))
resolved parse_url rows identity none = ok none
resolved parse_url rows identity (some matched) = do
  r ← resolve_row parse_url rows identity matched
  ok (some r)

unfoldable pub resolve_in :
    (Text → Option ParsedUrl) → List IdentityRow → Identity → Result StoreError (Option (Actor × ℕ))
resolve_in parse_url rows identity =
    resolved parse_url rows identity (find_where (λ r. same_identity r.identity identity) rows)

abbrev or_created :
    List IdentityRow
    → Identity
    → ℕ
    → ℕ
    → Option (Actor × ℕ)
    → Result StoreError (List IdentityRow × Actor × ℕ)
or_created rows identity principal_id identity_id (some (actor, id)) = ok (rows, actor, id)
or_created rows identity principal_id identity_id none = do
  checked ← corrupt (new_principal_id principal_id)
  ok (
    rows
        ++ record {
          identity_id = identity_id;
          principal_id = principal_id;
          identity = identity;
          is_primary = true;
        }
          ∷ [],
    for_single_identity checked identity,
    identity_id,
  )

-- The rows, the actor and the id of the identity's row.
unfoldable pub resolve_or_create_in :
    (Text → Option ParsedUrl)
    → List IdentityRow
    → Identity
    → ℕ
    → ℕ
    → Result StoreError (List IdentityRow × Actor × ℕ)
resolve_or_create_in parse_url rows identity new_principal new_identity_id = do
  found ← resolve_in parse_url rows identity
  or_created rows identity new_principal new_identity_id found

-- The identity of a row, checked again: `principal_from_identity_id` of mcp.rs and session.rs.
unfoldable pub principal_from_identity_id :
    (Text → Option ParsedUrl) → List IdentityRow → ℕ → Result StoreError Identity
principal_from_identity_id parse_url rows id = do
  row ← ok_or (find_where (λ r. r.identity_id == id) rows) corrupt_data
  corrupt (new_identity parse_url row.identity.issuer row.identity.subject)
