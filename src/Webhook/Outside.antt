-- ===== src/Webhook/Outside.antt =====
-- The addresses of both kinds that a webhook may be sent to, as those outside tables of address blocks.
use marginalis.Prelude.{
  ℕ, ◌+◌, ◌*◌, ◌/◌, ◌%◌, ◌^◌, ◌<◌, ◌≡◌, refl, sym, ap, ◌∙◌, Bool, true, false, not, ◌&&◌, ◌||◌,
  List, [], ◌∷◌, ◌==◌, arith, Bool-cases, inl, inr,
}
use marginalis.Webhook.Address.{
  Ipv4, Ipv6, IpAddr, v4, v6, is_public_unmapped, low_address, is_public_webhook_address, clear_low,
}
use marginalis.Webhook.Blocks.{address_number, in_any, refused_blocks, is_public_v4_lem}

-- The IPv6 addresses that begin with the segments `whole` and whose next segment agrees with `next` down to
-- its lowest `low` bits.
pub record SegmentBlock : Type 0 where
  pub whole : List ℕ
  pub next : ℕ
  pub low : ℕ

abbrev pub segments : Ipv6 → List ℕ
segments v = v.s0 ∷ v.s1 ∷ v.s2 ∷ v.s3 ∷ v.s4 ∷ v.s5 ∷ v.s6 ∷ v.s7 ∷ []

abbrev pub begins_with : List ℕ → ℕ → ℕ → List ℕ → Bool
begins_with whole next low [] = false
begins_with [] next low (x ∷ xs) = x / 2 ^ low == next / 2 ^ low
begins_with (w ∷ ws) next low (x ∷ xs) = x == w && begins_with ws next low xs

abbrev pub in_segment_block : List ℕ → SegmentBlock → Bool
in_segment_block xs block = begins_with block.whole block.next block.low xs

abbrev pub in_any_segment_block : List ℕ → List SegmentBlock → Bool
in_any_segment_block xs [] = false
in_any_segment_block xs (block ∷ blocks) =
    in_segment_block xs block || in_any_segment_block xs blocks

abbrev segment_block : List ℕ → ℕ → ℕ → SegmentBlock
segment_block whole next low = record { whole = whole; next = next; low = low }

-- ::/128, ::1/128, ff00::/8, fc00::/7, fe80::/10 and 2001:db8::/32.
abbrev pub refused_segment_blocks : List SegmentBlock
refused_segment_blocks =
    segment_block (0 ∷ 0 ∷ 0 ∷ 0 ∷ 0 ∷ 0 ∷ 0 ∷ []) 0 0
    ∷ segment_block (0 ∷ 0 ∷ 0 ∷ 0 ∷ 0 ∷ 0 ∷ 0 ∷ []) 1 0
    ∷ segment_block [] 0xff00 8
    ∷ segment_block [] 0xfc00 9
    ∷ segment_block [] 0xfe80 6
    ∷ segment_block (0x2001 ∷ []) 0xdb8 0
    ∷ []

-- ::ffff:0:0/96, of the IPv4 addresses.
abbrev pub mapped_block : SegmentBlock
mapped_block = segment_block (0 ∷ 0 ∷ 0 ∷ 0 ∷ 0 ∷ []) 0xffff 0

-- The address lies in none of the refused blocks, and if it stands for an IPv4 address, that one neither.
abbrev pub is_outside : IpAddr → Bool
is_outside (v4 v) = not (in_any (address_number v.a v.b v.c v.d) refused_blocks)
is_outside (v6 v) =
    not (in_any_segment_block (segments v) refused_segment_blocks)
    && not
        (in_segment_block (segments v) mapped_block && in_any (v.s6 * 65536 + v.s7) refused_blocks)

-- Octets are of 8 bits and segments of 16.
abbrev pub IsInRange : IpAddr → Type 0
IsInRange (v4 v) = (v.a < 256) × (v.b < 256) × (v.c < 256) × (v.d < 256)
IsInRange (v6 v) =
    (v.s0 < 65536)
    × (v.s1 < 65536)
    × (v.s2 < 65536)
    × (v.s3 < 65536)
    × (v.s4 < 65536)
    × (v.s5 < 65536)
    × (v.s6 < 65536)
    × (v.s7 < 65536)

abbrev mapped_v4 : Ipv6 → Ipv4
mapped_v4 v = record { a = v.s6 / 256; b = v.s6 % 256; c = v.s7 / 256; d = v.s7 % 256 }

abbrev is_mapped : Ipv6 → Bool
is_mapped v = v.s0 == 0 && v.s1 == 0 && v.s2 == 0 && v.s3 == 0 && v.s4 == 0 && v.s5 == 0xffff

mapped_number :
    (v : Ipv6)
    → v.s6 < 65536
    → v.s7 < 65536
    → address_number (mapped_v4 v).a (mapped_v4 v).b (mapped_v4 v).c (mapped_v4 v).d
      ≡ v.s6 * 65536 + v.s7
mapped_number v h6 h7 = omega arith

mapped_is : (v : Ipv6) → in_segment_block (segments v) mapped_block ≡ is_mapped v
mapped_is v = ground arith

module _ (v : Ipv6) where
  low_block :
      (n : ℕ)
      → in_segment_block (segments v) (segment_block (0 ∷ 0 ∷ 0 ∷ 0 ∷ 0 ∷ 0 ∷ 0 ∷ []) n 0)
        ≡ low_address v n
  low_block n = ground arith

  multicast :
      in_segment_block (segments v) (segment_block [] 0xff00 8) ≡ (clear_low 8 v.s0 == 0xff00)
  multicast = ground arith

  unique_local :
      in_segment_block (segments v) (segment_block [] 0xfc00 9) ≡ (clear_low 9 v.s0 == 0xfc00)
  unique_local = ground arith

  link_local :
      in_segment_block (segments v) (segment_block [] 0xfe80 6) ≡ (clear_low 6 v.s0 == 0xfe80)
  link_local = ground arith

  documentation :
      in_segment_block (segments v) (segment_block (0x2001 ∷ []) 0xdb8 0)
      ≡ (v.s0 == 0x2001 && v.s1 == 0xdb8)
  documentation = ground arith

  any_refused : in_any_segment_block (segments v) refused_segment_blocks ≡ (
      low_address v 0
      || (low_address v 1
          || (clear_low 8 v.s0 == 0xff00
              || (clear_low 9 v.s0 == 0xfc00
                  || (clear_low 6 v.s0 == 0xfe80 || (v.s0 == 0x2001 && v.s1 == 0xdb8 || false))))))
  any_refused =
      rw (low_block 0, low_block 1, multicast, unique_local, link_local, documentation) refl

  -- The address for which an IPv4 address stands lies in no block of the other table.
  mapped_apart :
      is_mapped v ≡ true → in_any_segment_block (segments v) refused_segment_blocks ≡ false
  mapped_apart m = any_refused ∙ ground arith

reordered :
    (x y m u l d : Bool)
    → not (x || y || m || u || l || d) ≡ not (x || (y || (m || (u || (l || (d || false))))))
reordered x y m u l d = ground arith

unmapped_is :
    (v : Ipv6)
    → is_public_unmapped v ≡ not (in_any_segment_block (segments v) refused_segment_blocks)
unmapped_is v =
    reordered (low_address v 0) (low_address v 1) (clear_low 8 v.s0 == 0xff00)
      (clear_low 9 v.s0 == 0xfc00) (clear_low 6 v.s0 == 0xfe80) (v.s0 == 0x2001 && v.s1 == 0xdb8)
    ∙ ap not (sym (any_refused v))

-- The check of the code and the tables agree.
pub is_public_webhook_address-is_outside :
    (a : IpAddr) → IsInRange a → is_public_webhook_address a ≡ is_outside a
unfolding is_public_webhook_address
is_public_webhook_address-is_outside (v4 v) (ha, hb, hc, hd) = is_public_v4_lem v ha hb hc hd
is_public_webhook_address-is_outside (v6 v) (_, _, _, _, _, _, h6, h7) =
    elim (Bool-cases (is_mapped v)) [
      | inl m ↦
          rw (mapped_is v, m, mapped_apart v m)
            (is_public_v4_lem (mapped_v4 v) (omega arith) (omega arith) (omega arith) (omega arith)
              ∙ ap (λ n. not (in_any n refused_blocks)) (mapped_number v h6 h7))
      | inr m ↦ rw (mapped_is v, m) (unmapped_is v ∙ keep _)
    ]
  where
    keep : (x : Bool) → x ≡ (x && true)
    keep true = refl
    keep false = refl
