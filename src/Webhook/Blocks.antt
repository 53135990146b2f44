-- ===== src/Webhook/Blocks.antt =====
-- The public IPv4 addresses as those outside a table of address blocks.
use marginalis.Prelude.{
  ℕ, ◌+◌, ◌*◌, ◌/◌, ◌^◌, ◌<◌, ◌≡◌, refl, sym, ap, ◌∙◌, Bool, true, false, not, ◌&&◌, ◌||◌, List, [],
  ◌∷◌, leb, ◌==◌, arith,
}
use marginalis.Webhook.Address.{Ipv4, clear_low, is_unspecified, is_broadcast, is_public_v4}

-- The address as a number of 32 bits.
abbrev pub address_number : ℕ → ℕ → ℕ → ℕ → ℕ
address_number a b c d = ((a * 256 + b) * 256 + c) * 256 + d

-- The block of the addresses that agree with `base` down to the lowest `low` bits.
pub record Block : Type 0 where
  pub base : ℕ
  pub low : ℕ

abbrev pub in_block : ℕ → Block → Bool
in_block n block = n / 2 ^ block.low == block.base / 2 ^ block.low

abbrev pub in_any : ℕ → List Block → Bool
in_any n [] = false
in_any n (x ∷ xs) = in_block n x || in_any n xs

-- A block as it is written: a.b.c.d/(32 - low).
abbrev block : ℕ → ℕ → ℕ → ℕ → ℕ → Block
block a b c d low = record { base = address_number a b c d; low = low }

-- The blocks of special addresses that the check refuses, in the order of their numbers.
abbrev pub refused_blocks : List Block
refused_blocks =
    block 0 0 0 0 0
    ∷ block 10 0 0 0 24
    ∷ block 100 64 0 0 22
    ∷ block 127 0 0 0 24
    ∷ block 169 254 0 0 16
    ∷ block 172 16 0 0 20
    ∷ block 192 0 0 0 8
    ∷ block 192 0 2 0 8
    ∷ block 192 168 0 0 16
    ∷ block 198 18 0 0 17
    ∷ block 198 51 100 0 8
    ∷ block 203 0 113 0 8
    ∷ block 224 0 0 0 28
    ∷ block 240 0 0 0 28
    ∷ []

module _ (a b c d : ℕ) (ha : a < 256) (hb : b < 256) (hc : c < 256) (hd : d < 256) where
  first_octet : address_number a b c d / 2 ^ 24 ≡ a
  first_octet = omega arith

  two_octets : address_number a b c d / 2 ^ 16 ≡ a * 256 + b
  two_octets = omega arith

  three_octets : address_number a b c d / 2 ^ 8 ≡ (a * 256 + b) * 256 + c
  three_octets = omega arith

  upper_four : address_number a b c d / 2 ^ 28 ≡ a / 16
  upper_four = omega arith

  upper_ten : address_number a b c d / 2 ^ 22 ≡ a * 4 + b / 64
  upper_ten = omega arith

  upper_twelve : address_number a b c d / 2 ^ 20 ≡ a * 16 + b / 16
  upper_twelve = omega arith

  upper_fifteen : address_number a b c d / 2 ^ 17 ≡ a * 128 + b / 2
  upper_fifteen = omega arith

  zero :
      in_block (address_number a b c d) (block 0 0 0 0 0) ≡ (a == 0 && b == 0 && c == 0 && d == 0)
  zero = ground (arith)

  ten : in_block (address_number a b c d) (block 10 0 0 0 24) ≡ (a == 10)
  ten = ground (arith, first_octet)

  shared :
      in_block (address_number a b c d) (block 100 64 0 0 22) ≡ (a == 100 && clear_low 6 b == 64)
  shared = ground (arith, upper_ten)

  loopback : in_block (address_number a b c d) (block 127 0 0 0 24) ≡ (a == 127)
  loopback = ground (arith, first_octet)

  link_local : in_block (address_number a b c d) (block 169 254 0 0 16) ≡ (a == 169 && b == 254)
  link_local = ground (arith, two_octets)

  private_172 :
      in_block (address_number a b c d) (block 172 16 0 0 20) ≡ (a == 172 && leb 16 b && leb b 31)
  private_172 = ground (arith, upper_twelve)

  protocols : in_block (address_number a b c d) (block 192 0 0 0 8) ≡ (a == 192 && b == 0 && c == 0)
  protocols = ground (arith, three_octets)

  test_1 : in_block (address_number a b c d) (block 192 0 2 0 8) ≡ (a == 192 && b == 0 && c == 2)
  test_1 = ground (arith, three_octets)

  private_192 : in_block (address_number a b c d) (block 192 168 0 0 16) ≡ (a == 192 && b == 168)
  private_192 = ground (arith, two_octets)

  benchmark :
      in_block (address_number a b c d) (block 198 18 0 0 17) ≡ (a == 198 && clear_low 1 b == 18)
  benchmark = ground (arith, upper_fifteen)

  test_2 :
      in_block (address_number a b c d) (block 198 51 100 0 8) ≡ (a == 198 && b == 51 && c == 100)
  test_2 = ground (arith, three_octets)

  test_3 :
      in_block (address_number a b c d) (block 203 0 113 0 8) ≡ (a == 203 && b == 0 && c == 113)
  test_3 = ground (arith, three_octets)

  multicast : in_block (address_number a b c d) (block 224 0 0 0 28) ≡ (leb 224 a && leb a 239)
  multicast = ground (arith, upper_four)

  reserved : in_block (address_number a b c d) (block 240 0 0 0 28) ≡ (leb 240 a)
  reserved = ground (arith, upper_four)

  any_refused : in_any (address_number a b c d) refused_blocks ≡ (
      (a == 0 && b == 0 && c == 0 && d == 0)
      || ((a == 10)
          || ((a == 100 && clear_low 6 b == 64)
              || ((a == 127)
                  || ((a == 169 && b == 254)
                      || ((a == 172 && leb 16 b && leb b 31)
                          || ((a == 192 && b == 0 && c == 0)
                              || ((a == 192 && b == 0 && c == 2)
                                  || ((a == 192 && b == 168)
                                      || ((a == 198 && clear_low 1 b == 18)
                                          || ((a == 198 && b == 51 && c == 100)
                                              || ((a == 203 && b == 0 && c == 113)
                                                  || ((leb 224 a && leb a 239)
                                                      || (leb 240 a || false))))))))))))))
  any_refused =
      rw
        (
          zero, ten, shared, loopback, link_local, private_172, protocols, test_1, private_192,
          benchmark, test_2, test_3, multicast, reserved,
        )
        refl

pub same_test : (x y : Bool) → (x ≡ false → y ≡ false) → (y ≡ false → x ≡ false) → x ≡ y
same_test true true f g = refl
same_test true false f g = g refl
same_test false true f g = sym (f refl)
same_test false false f g = refl

-- The tests of the code and those of the table, in their orders; a broadcast address is a reserved one.
reordered :
    (z ten sh lo ll p172 pr t1 p192 be t2 t3 mu re bc : Bool)
    → (re ≡ false → bc ≡ false)
    → (z
        || lo
        || (ten || p172 || p192)
        || ll
        || bc
        || (t1 || t2 || t3)
        || mu
        || sh
        || pr
        || be
        || re)
      ≡ (z
          || (ten
              || (sh
                  || (lo
                      || (ll
                          || (p172
                              || (pr
                                  || (t1
                                      || (p192
                                          || (be || (t2 || (t3 || (mu || (re || false))))))))))))))
reordered z ten sh lo ll p172 pr t1 p192 be t2 t3 mu re bc h =
    same_test _ _ (λ e. ground arith) (λ e. ground (arith, h))

broadcast_reserved : (v : Ipv4) → leb 240 v.a ≡ false → is_broadcast v ≡ false
broadcast_reserved v e = ground arith

-- An IPv4 address is public just when it lies in none of the refused blocks.
pub is_public_v4_lem :
    (v : Ipv4)
    → v.a < 256
    → v.b < 256
    → v.c < 256
    → v.d < 256
    → is_public_v4 v ≡ not (in_any (address_number v.a v.b v.c v.d) refused_blocks)
unfolding is_public_v4
is_public_v4_lem v ha hb hc hd = ap not (
    reordered (is_unspecified v) (v.a == 10) (v.a == 100 && clear_low 6 v.b == 64) (v.a == 127)
      (v.a == 169 && v.b == 254) (v.a == 172 && leb 16 v.b && leb v.b 31)
      (v.a == 192 && v.b == 0 && v.c == 0) (v.a == 192 && v.b == 0 && v.c == 2)
      (v.a == 192 && v.b == 168) (v.a == 198 && clear_low 1 v.b == 18)
      (v.a == 198 && v.b == 51 && v.c == 100) (v.a == 203 && v.b == 0 && v.c == 113)
      (leb 224 v.a && leb v.a 239) (leb 240 v.a) (is_broadcast v) (broadcast_reserved v)
    ∙ sym (any_refused v.a v.b v.c v.d ha hb hc hd))
