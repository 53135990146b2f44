-- ===== src/Webhook/Destination.antt =====
-- crates/marginalis-application/src/webhooks/destination.rs: the check of a destination URL. Parsing is the
-- `url` crate's: its result is the record `Url`, and the parser a parameter.
use marginalis.Prelude.{
  ℕ, ◌≡◌, refl, sym, ap, ◌∙◌, Bool, true, false, not, ◌&&◌, ◌||◌, List, [], ◌∷◌, Option, none, some,
  leb, ◌+◌, ◌==◌, arith, if◌then◌else◌, Result, ok, ◌>>=◌, ◌>>◌, ok_or, refuse_if, >>=-eq-ok,
  refuse_if-eq-ok,
}
use marginalis.Text.{Text, codes, is_empty, ◌=t=◌}
use marginalis.Domain.Identity.{is_none}
use marginalis.Webhook.Address.{Ipv4, Ipv6, IpAddr, v4, v6, is_public_webhook_address}
use marginalis.Webhook.Outside.{is_outside, IsInRange, is_public_webhook_address-is_outside}

-- `url::Host`.
pub data Host : Type 0 where
  domain : Text → Host
  ipv4 : Ipv4 → Host
  ipv6 : Ipv6 → Host

pub record Url : Type 0 where
  pub scheme : Text
  pub username : Text
  pub password : Option Text
  pub host_str : Option Text
  pub host : Option Host
  pub port : Option ℕ
  pub port_or_known_default : Option ℕ

-- `WebhookDestination`.
pub record WebhookDestination : Type 0 where
  pub host : Text
  pub port : ℕ
  pub exempt : Bool
  pub literal : Option IpAddr

pub data InvalidWebhookDestination : Type 0 where
  invalid_webhook_destination : InvalidWebhookDestination

-- `u8::to_ascii_lowercase` on a character.
abbrev pub ascii_lower : ℕ → ℕ
ascii_lower c = if leb 65 c && leb c 90 then c + 32 else c

abbrev pub eq_ignore_ascii_case : Text → Text → Bool
eq_ignore_ascii_case [] [] = true
eq_ignore_ascii_case [] (y ∷ ys) = false
eq_ignore_ascii_case (x ∷ xs) [] = false
eq_ignore_ascii_case (x ∷ xs) (y ∷ ys) =
    ascii_lower x == ascii_lower y && eq_ignore_ascii_case xs ys

unfoldable pub is_allowed : List Text → Text → Bool
is_allowed [] host = false
is_allowed (x ∷ xs) host = eq_ignore_ascii_case x host || is_allowed xs host

abbrev pub other_port : Option ℕ → Bool
other_port none = false
other_port (some p) = not (p == 443)

abbrev pub host_literal : Option Host → Option IpAddr
host_literal none = none
host_literal (some (domain t)) = none
host_literal (some (ipv4 a)) = some (v4 a)
host_literal (some (ipv6 a)) = some (v6 a)

abbrev pub is_special : Option IpAddr → Bool
is_special none = false
is_special (some a) = not (is_public_webhook_address a)

-- `validate_webhook_destination`, of a URL that was parsed.
unfoldable pub validate_parsed :
    Url → List Text → Result InvalidWebhookDestination WebhookDestination
validate_parsed parsed allowed_hosts = do
  refuse_if (not (is_empty parsed.username) || not (is_none parsed.password))
      invalid_webhook_destination
  host ← ok_or parsed.host_str invalid_webhook_destination
  let exempt = is_allowed allowed_hosts host
  refuse_if (not exempt && not (parsed.scheme =t= codes "https")) invalid_webhook_destination
  refuse_if (not exempt && other_port parsed.port) invalid_webhook_destination
  port ← ok_or parsed.port_or_known_default invalid_webhook_destination
  let literal = host_literal parsed.host
  refuse_if (not exempt && is_special literal) invalid_webhook_destination
  ok (record { host = host; port = port; exempt = exempt; literal = literal })

-- `validate_webhook_destination`.
unfoldable pub validate_webhook_destination :
    (Text → Option Url) → Text → List Text → Result InvalidWebhookDestination WebhookDestination
validate_webhook_destination parse_url url allowed_hosts = do
  parsed ← ok_or (parse_url url) invalid_webhook_destination
  validate_parsed parsed allowed_hosts

-- The literal address, if there is one, lies outside the tables of blocks.
abbrev pub is_outside_if_any : Option IpAddr → Bool
is_outside_if_any none = true
is_outside_if_any (some a) = is_outside a

-- The octets and segments of a host that is an address are of 8 and 16 bits, as those of `url::Host` are.
abbrev pub HasRange : Option IpAddr → Type 0
HasRange none = Unit
HasRange (some a) = IsInRange a

-- What an accepted destination is: of a URL without user information, and, unless the administrator allows
-- the host, HTTPS at no other port than 443 and at no address of the tables of blocks.
pub record IsSafe (parsed : Url) (allowed_hosts : List Text) (d : WebhookDestination) : Type 0 where
  pub host : parsed.host_str ≡ some d.host
  pub port : parsed.port_or_known_default ≡ some d.port
  pub exempt : d.exempt ≡ is_allowed allowed_hosts d.host
  pub literal : d.literal ≡ host_literal parsed.host
  pub no_user : (is_empty parsed.username && is_none parsed.password) ≡ true
  pub https : (d.exempt || parsed.scheme =t= codes "https") ≡ true
  pub standard_port : (d.exempt || not (other_port parsed.port)) ≡ true
  pub public_address : (d.exempt || is_outside_if_any d.literal) ≡ true

ok_or-some {ℓ} :
    {A : Type ℓ} {E : Type 0} (o : Option A) (e : E) {v : A} → ok_or o e ≡ ok v → o ≡ some v
ok_or-some none e q = cc
ok_or-some (some x) e q = cc

not_special : (o : Option IpAddr) → HasRange o → not (is_special o) ≡ is_outside_if_any o
not_special none range = refl
not_special (some a) range =
    not_not (is_public_webhook_address a) ∙ is_public_webhook_address-is_outside a range
  where
    not_not : (x : Bool) → not (not x) ≡ x
    not_not true = refl
    not_not false = refl

validate_parsed-IsSafe :
    (parsed : Url) (allowed : List Text) (d : WebhookDestination)
    → HasRange (host_literal parsed.host)
    → validate_parsed parsed allowed ≡ ok d
    → IsSafe parsed allowed d
unfolding validate_parsed
validate_parsed-IsSafe parsed allowed d range e =
    let bad = invalid_webhook_destination in
    let (_, user, e1) =
      >>=-eq-ok (refuse_if (not (is_empty parsed.username) || not (is_none parsed.password)) bad) _
        e in
    let (host, h, e2) = >>=-eq-ok (ok_or parsed.host_str bad) _ e1 in
    let free = is_allowed allowed host in
    let (_, scheme, e3) =
      >>=-eq-ok (refuse_if (not free && not (parsed.scheme =t= codes "https")) bad) _ e2 in
    let (_, other, e4) = >>=-eq-ok (refuse_if (not free && other_port parsed.port) bad) _ e3 in
    let (port, p, e5) = >>=-eq-ok (ok_or parsed.port_or_known_default bad) _ e4 in
    let (_, special, e6) =
      >>=-eq-ok (refuse_if (not free && is_special (host_literal parsed.host)) bad) _ e5 in
    let same = destination_eq e6 in
    record {
      host = ok_or-some parsed.host_str bad h ∙ ap (λ x. some x.host) same;
      port = ok_or-some parsed.port_or_known_default bad p ∙ ap (λ x. some x.port) same;
      exempt = sym (ap (λ x. x.exempt) same) ∙ ap (λ x. is_allowed allowed x.host) same;
      literal = sym (ap (λ x. x.literal) same);
      no_user = ground (arith, refuse_if-eq-ok _ bad user);
      https =
          sym (ap (λ x. x.exempt || parsed.scheme =t= codes "https") same)
          ∙ or_of free (parsed.scheme =t= codes "https") (refuse_if-eq-ok _ bad scheme);
      standard_port =
          sym (ap (λ x. x.exempt || not (other_port parsed.port)) same)
          ∙ or_not free (other_port parsed.port) (refuse_if-eq-ok _ bad other);
      public_address =
          sym (ap (λ x. x.exempt || is_outside_if_any x.literal) same)
          ∙ ap (λ b. free || b) (sym (not_special (host_literal parsed.host) range))
          ∙ or_not free (is_special (host_literal parsed.host)) (refuse_if-eq-ok _ bad special);
    }
  where
    ok_destination : WebhookDestination → Result InvalidWebhookDestination WebhookDestination
    ok_destination x = ok x

    destination_eq : {x y : WebhookDestination} → ok_destination x ≡ ok_destination y → x ≡ y
    destination_eq q = cc

    or_of : (x y : Bool) → (not x && not y) ≡ false → (x || y) ≡ true
    or_of x y q = ground arith

    or_not : (x y : Bool) → (not x && y) ≡ false → (x || not y) ≡ true
    or_not x y q = ground arith

-- Where the octets and segments of a parsed address are of 8 and 16 bits: a URL that is accepted as a
-- destination was parsed, has a host and no user information, and, unless its host is allowed by the
-- administrator, it is HTTPS, names no other port than 443, and its host is no literal of an address
-- in the blocks that the tables list (fourteen of IPv4, six of IPv6), nor of an IPv6 address that
-- stands for an IPv4 address in them.
pub validate_webhook_destination-IsSafe :
    (parse_url : Text → Option Url) (url : Text) (allowed : List Text) (d : WebhookDestination)
    → ((parsed : Url) → parse_url url ≡ some parsed → HasRange (host_literal parsed.host))
    → validate_webhook_destination parse_url url allowed ≡ ok d
    → (parsed : Url) × (parse_url url ≡ some parsed) × IsSafe parsed allowed d
unfolding validate_webhook_destination
validate_webhook_destination-IsSafe parse_url url allowed d range e =
    let (parsed, p, e1) = >>=-eq-ok (ok_or (parse_url url) invalid_webhook_destination) _ e in
    let found = ok_or-some (parse_url url) invalid_webhook_destination p in
    (parsed, found, validate_parsed-IsSafe parsed allowed d (range parsed found) e1)
