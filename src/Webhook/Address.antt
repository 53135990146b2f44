-- ===== src/Webhook/Address.antt =====
-- crates/marginalis-application/src/webhooks/destination.rs: which addresses a webhook may be sent to. The
-- tests of `std::net` are written out after their documentation.
use marginalis.Prelude.{
  ℕ, ◌*◌, ◌/◌, ◌%◌, ◌^◌, Bool, not, ◌&&◌, ◌||◌, Option, none, some, leb, ◌==◌, if◌then◌else◌,
}

-- `Ipv4Addr`, by its octets.
pub record Ipv4 : Type 0 where
  pub a : ℕ
  pub b : ℕ
  pub c : ℕ
  pub d : ℕ

-- `Ipv6Addr`, by its segments.
pub record Ipv6 : Type 0 where
  pub s0 : ℕ
  pub s1 : ℕ
  pub s2 : ℕ
  pub s3 : ℕ
  pub s4 : ℕ
  pub s5 : ℕ
  pub s6 : ℕ
  pub s7 : ℕ

pub data IpAddr : Type 0 where
  v4 : Ipv4 → IpAddr
  v6 : Ipv6 → IpAddr

-- `&` with a mask of ones above the lowest `k` bits.
abbrev pub clear_low : ℕ → ℕ → ℕ
clear_low k x = x / 2 ^ k * 2 ^ k

abbrev pub is_unspecified : Ipv4 → Bool
is_unspecified v = v.a == 0 && v.b == 0 && v.c == 0 && v.d == 0

abbrev pub is_private : Ipv4 → Bool
is_private v = v.a == 10 || (v.a == 172 && leb 16 v.b && leb v.b 31) || (v.a == 192 && v.b == 168)

abbrev pub is_broadcast : Ipv4 → Bool
is_broadcast v = v.a == 255 && v.b == 255 && v.c == 255 && v.d == 255

abbrev pub is_documentation : Ipv4 → Bool
is_documentation v =
    (v.a == 192 && v.b == 0 && v.c == 2)
    || (v.a == 198 && v.b == 51 && v.c == 100)
    || (v.a == 203 && v.b == 0 && v.c == 113)

-- `is_public_webhook_address` at an IPv4 address.
unfoldable pub is_public_v4 : Ipv4 → Bool
is_public_v4 v = not (
    is_unspecified v
    || v.a == 127
    || is_private v
    || (v.a == 169 && v.b == 254)
    || is_broadcast v
    || is_documentation v
    || (leb 224 v.a && leb v.a 239)
    || (v.a == 100 && clear_low 6 v.b == 64)
    || (v.a == 192 && v.b == 0 && v.c == 0)
    || (v.a == 198 && clear_low 1 v.b == 18)
    || leb 240 v.a)

-- `Ipv6Addr::to_ipv4_mapped`: ::ffff:0:0/96.
abbrev pub to_ipv4_mapped : Ipv6 → Option Ipv4
to_ipv4_mapped v =
    if v.s0 == 0 && v.s1 == 0 && v.s2 == 0 && v.s3 == 0 && v.s4 == 0 && v.s5 == 0xffff
    then some (record { a = v.s6 / 256; b = v.s6 % 256; c = v.s7 / 256; d = v.s7 % 256 })
    else none

abbrev pub low_address : Ipv6 → ℕ → Bool
low_address v n =
    v.s0 == 0
    && v.s1 == 0
    && v.s2 == 0
    && v.s3 == 0
    && v.s4 == 0
    && v.s5 == 0
    && v.s6 == 0
    && v.s7 == n

abbrev pub is_public_unmapped : Ipv6 → Bool
is_public_unmapped v = not (
    low_address v 0
    || low_address v 1
    || clear_low 8 v.s0 == 0xff00
    || clear_low 9 v.s0 == 0xfc00
    || clear_low 6 v.s0 == 0xfe80
    || (v.s0 == 0x2001 && v.s1 == 0xdb8))

abbrev pub public_or : Option Ipv4 → Bool → Bool
public_or none other = other
public_or (some v) other = is_public_v4 v

-- `is_public_webhook_address`.
unfoldable pub is_public_webhook_address : IpAddr → Bool
is_public_webhook_address (v4 v) = is_public_v4 v
is_public_webhook_address (v6 v) = public_or (to_ipv4_mapped v) (is_public_unmapped v)
