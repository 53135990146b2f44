-- ===== src/Domain/Identity.antt =====
-- crates/marginalis-domain/src/model/identity.rs: identities of an external provider. Parsing a URL
-- is the `url` crate's; its result is the record `ParsedUrl`, and the parser a parameter.
use marginalis.Prelude.{
  ℕ, Bool, true, false, not, ◌&&◌, ◌||◌, List, [], ◌∷◌, Option, none, some, leb, ltb, Result, ok,
  err, ◌>>=◌, ok_or, if◌then◌else◌,
}
use marginalis.Text.{Text, codes, is_empty, byte_len, ◌=t=◌}

pub record ParsedUrl : Type 0 where
  pub scheme : Text
  pub cannot_be_a_base : Bool
  pub username : Text
  pub password : Option Text
  pub query : Option Text
  pub fragment : Option Text
  pub host : Option Text
  pub port : Option ℕ

abbrev pub is_none {ℓ} : {A : Type ℓ} → Option A → Bool
is_none none = true
is_none (some a) = false

-- `char::is_control`: the general category Cc.
abbrev pub is_control : ℕ → Bool
is_control c = ltb c 32 || (leb 0x7f c && leb c 0x9f)

abbrev pub any_control : Text → Bool
any_control [] = false
any_control (c ∷ s) = is_control c || any_control s

abbrev pub max_identity_issuer_bytes : ℕ
max_identity_issuer_bytes = 2048

abbrev pub max_identity_subject_bytes : ℕ
max_identity_subject_bytes = 1024

pub data InvalidIdentity : Type 0 where
  invalid_identity : InvalidIdentity

unfoldable pub issuer_valid : Text → ParsedUrl → Bool
issuer_valid issuer url =
    leb (byte_len issuer) max_identity_issuer_bytes
    && (url.scheme =t= codes "http" || url.scheme =t= codes "https")
    && not url.cannot_be_a_base
    && is_empty url.username
    && is_none url.password
    && is_none url.query
    && is_none url.fragment
    && not (any_control issuer)

unfoldable pub subject_valid : Text → Bool
subject_valid subject =
    not (is_empty subject)
    && leb (byte_len subject) max_identity_subject_bytes
    && not (any_control subject)

pub record Identity : Type 0 where
  pub issuer : Text
  pub subject : Text

unfoldable pub validate_identity :
    (Text → Option ParsedUrl) → Text → Text → Result InvalidIdentity (Unit {0})
validate_identity parse_url issuer subject = do
  url ← ok_or (parse_url issuer) invalid_identity
  if issuer_valid issuer url && subject_valid subject then ok tt else err invalid_identity

-- `Identity::new`.
unfoldable pub new_identity :
    (Text → Option ParsedUrl) → Text → Text → Result InvalidIdentity Identity
new_identity parse_url issuer subject = do
  _ ← validate_identity parse_url issuer subject
  ok (record { issuer = issuer; subject = subject })

-- Derived equality of identities.
abbrev pub same_identity : Identity → Identity → Bool
same_identity a b = a.issuer =t= b.issuer && a.subject =t= b.subject

unfoldable pub contains_identity : List Identity → Identity → Bool
contains_identity [] i = false
contains_identity (x ∷ xs) i = same_identity x i || contains_identity xs i

-- An identity stands in the list twice.
unfoldable pub any_repeated : List Identity → Bool
any_repeated [] = false
any_repeated (x ∷ xs) = contains_identity xs x || any_repeated xs

abbrev pub no_identities : List Identity → Bool
no_identities [] = true
no_identities (x ∷ xs) = false

pub data InvalidPrincipalId : Type 0 where
  invalid_principal_id : InvalidPrincipalId

-- `PrincipalId::new`.
unfoldable pub new_principal_id : ℕ → Result InvalidPrincipalId ℕ
new_principal_id value = if ltb 0 value then ok value else err invalid_principal_id

pub record PrincipalRef : Type 0 where
  pub id : ℕ
  pub primary_identity : Identity

pub record Principal : Type 0 where
  pub reference : PrincipalRef
  pub identities : List Identity

pub record Actor : Type 0 where
  pub principal : PrincipalRef
  pub authenticated_identity : Identity

pub data InvalidPrincipal : Type 0 where
  invalid_principal : InvalidPrincipal

-- `Principal::restore`.
unfoldable pub restore_principal : ℕ → Identity → List Identity → Result InvalidPrincipal Principal
restore_principal id primary identities =
    if no_identities identities
      || not (contains_identity identities primary)
      || any_repeated identities
    then err invalid_principal
    else ok (record {
      reference = record { id = id; primary_identity = primary };
      identities = identities;
    })

-- `Actor::authenticate`.
unfoldable pub authenticate_actor : Principal → Identity → Result InvalidPrincipal Actor
authenticate_actor principal identity =
    if not (contains_identity principal.identities identity)
    then err invalid_principal
    else ok (record { principal = principal.reference; authenticated_identity = identity })

-- `Actor::for_single_identity`.
abbrev pub for_single_identity : ℕ → Identity → Actor
for_single_identity principal_id identity = record {
  principal = record { id = principal_id; primary_identity = identity };
  authenticated_identity = identity;
}
