-- ===== src/Egress/Ranges.antt =====
-- pkgs/host/wasm/src/egress.rs: the addresses that `is_public_v4` lets through, as numbers.
use jan_klod.Common.{
  ℕ, ◌+◌, ◌*◌, ◌<◌, ◌≤◌, ◌≡◌, ◌↔◌, ◌⊎◌, refl, arith, Bool, true, false, not, ◌&&◌, ◌||◌, List, [],
  ◌∷◌, All, leb, ◌==◌,
}
use jan_klod.Egress.{
  Ipv4Addr, is_loopback, is_private, is_link_local, is_broadcast, is_documentation, is_unspecified,
  is_public_v4,
}

-- `size` addresses from `first` on.
pub record Block : Type 0 where
  pub first : ℕ
  pub size : ℕ

abbrev pub number : ℕ → ℕ → ℕ → ℕ → ℕ
number a b c d = a * 16777216 + b * 65536 + c * 256 + d

abbrev pub block : ℕ → ℕ → ℕ → ℕ → Block
block a b c size = record { first = number a b c 0; size = size }

-- The blocks that are kept from components: 0.0.0.0/8, 10.0.0.0/8, 100.64.0.0/10, 127.0.0.0/8,
-- 169.254.0.0/16, 172.16.0.0/12, 192.0.2.0/24, 192.168.0.0/16, 198.18.0.0/15, 198.51.100.0/24,
-- 203.0.113.0/24 and 240.0.0.0/4.
abbrev pub special_blocks : List Block
special_blocks =
    block 0 0 0 16777216
    ∷ block 10 0 0 16777216
    ∷ block 100 64 0 4194304
    ∷ block 127 0 0 16777216
    ∷ block 169 254 0 65536
    ∷ block 172 16 0 1048576
    ∷ block 192 0 2 256
    ∷ block 192 168 0 65536
    ∷ block 198 18 0 131072
    ∷ block 198 51 100 256
    ∷ block 203 0 113 256
    ∷ block 240 0 0 268435456
    ∷ []

abbrev pub Outside : ℕ → Block → Type 0
Outside n b = (n < b.first) ⊎ (b.first + b.size ≤ n)

abbrev pub IsOctets : Ipv4Addr → Type 0
IsOctets ip = (ip.a < 256) × (ip.b < 256) × (ip.c < 256) × (ip.d < 256)

module _ (a b c d : ℕ) (ha : a < 256) (hb : b < 256) (hc : c < 256) (hd : d < 256) where
  whole : (k : ℕ) → ((a == k) ≡ false) ↔ Outside (number a b c d) (block k 0 0 16777216)
  whole k = ground arith

  sixteen :
      (k l : ℕ)
      → l < 256
      → ((a == k && b == l) ≡ false) ↔ Outside (number a b c d) (block k l 0 65536)
  sixteen k l h = ground arith

  twentyfour :
      (k l m : ℕ)
      → l < 256
      → m < 256
      → ((a == k && b == l && c == m) ≡ false) ↔ Outside (number a b c d) (block k l m 256)
  twentyfour k l m h g = ground arith

  shared :
      ((a == 100 && leb 64 b && leb b 127) ≡ false)
      ↔ Outside (number a b c d) (block 100 64 0 4194304)
  shared = ground arith

  twelve :
      ((a == 172 && leb 16 b && leb b 31) ≡ false)
      ↔ Outside (number a b c d) (block 172 16 0 1048576)
  twelve = ground arith

  bench :
      ((a == 198 && (b == 18 || b == 19)) ≡ false)
      ↔ Outside (number a b c d) (block 198 18 0 131072)
  bench = ground arith

  reserved : (leb 240 a ≡ false) ↔ Outside (number a b c d) (block 240 0 0 268435456)
  reserved = ground arith

or_false_iff : (s t : Bool) → ((s || t) ≡ false) ↔ ((s ≡ false) × (t ≡ false))
or_false_iff s t = ground arith

not-true : (s : Bool) → (not s ≡ true) ↔ (s ≡ false)
not-true s = ground arith

-- The tests, one for each block.
abbrev Passes : Ipv4Addr → Type 0
Passes ip =
    ((ip.a == 0) ≡ false)
    × ((ip.a == 10) ≡ false)
    × ((ip.a == 100 && leb 64 ip.b && leb ip.b 127) ≡ false)
    × ((ip.a == 127) ≡ false)
    × ((ip.a == 169 && ip.b == 254) ≡ false)
    × ((ip.a == 172 && leb 16 ip.b && leb ip.b 31) ≡ false)
    × ((ip.a == 192 && ip.b == 0 && ip.c == 2) ≡ false)
    × ((ip.a == 192 && ip.b == 168) ≡ false)
    × ((ip.a == 198 && (ip.b == 18 || ip.b == 19)) ≡ false)
    × ((ip.a == 198 && ip.b == 51 && ip.c == 100) ≡ false)
    × ((ip.a == 203 && ip.b == 0 && ip.c == 113) ≡ false)
    × (leb 240 ip.a ≡ false)

abbrev is_special : Ipv4Addr → Bool
is_special ip =
    is_loopback ip
    || is_private ip
    || is_link_local ip
    || is_broadcast ip
    || is_documentation ip
    || is_unspecified ip
    || ip.a == 0
    || (ip.a == 100 && leb 64 ip.b && leb ip.b 127)
    || (ip.a == 198 && (ip.b == 18 || ip.b == 19))
    || leb 240 ip.a

Passes-public : (ip : Ipv4Addr) → is_special ip ≡ false → Passes ip
Passes-public ip e =
    let (e9, top) = (or_false_iff _ _).0 e in
    let (e8, lab) = (or_false_iff _ _).0 e9 in
    let (e7, cgn) = (or_false_iff _ _).0 e8 in
    let (e6, zeroes) = (or_false_iff _ _).0 e7 in
    let (e5, unspecified) = (or_false_iff _ _).0 e6 in
    let (e4, documentation) = (or_false_iff _ _).0 e5 in
    let (e3, broadcast) = (or_false_iff _ _).0 e4 in
    let (e2, link) = (or_false_iff _ _).0 e3 in
    let (loopback, private) = (or_false_iff _ _).0 e2 in
    let (private2, p192) = (or_false_iff _ _).0 private in
    let (ten, p172) = (or_false_iff _ _).0 private2 in
    let (documentation2, d3) = (or_false_iff _ _).0 documentation in
    let (d1, d2) = (or_false_iff _ _).0 documentation2 in
    (zeroes, ten, cgn, loopback, link, p172, d1, p192, lab, d2, d3, top)

public-Passes : (ip : Ipv4Addr) → Passes ip → is_special ip ≡ false
public-Passes ip (zeroes, ten, cgn, loopback, link, p172, d1, p192, lab, d2, d3, top) =
    rw (loopback, ten, p172, p192, link, no_broadcast ip.a top, d1, d2, d3, zeroes, cgn, lab, top)
      refl
  where
    no_broadcast : (a : ℕ) → leb 240 a ≡ false → (a == 255) ≡ false
    no_broadcast a h = ground arith

to :
    (ip : Ipv4Addr)
    → IsOctets ip
    → Passes ip
    → All (Outside (number ip.a ip.b ip.c ip.d)) special_blocks
to ip (ha, hb, hc, hd) (zeroes, ten, cgn, loopback, link, p172, d1, p192, lab, d2, d3, top) = (
  (whole ip.a ip.b ip.c ip.d ha hb hc hd 0).0 zeroes,
  (
    (whole ip.a ip.b ip.c ip.d ha hb hc hd 10).0 ten,
    (
      (shared ip.a ip.b ip.c ip.d ha hb hc hd).0 cgn,
      (
        (whole ip.a ip.b ip.c ip.d ha hb hc hd 127).0 loopback,
        (
          (sixteen ip.a ip.b ip.c ip.d ha hb hc hd 169 254 (omega arith)).0 link,
          (
            (twelve ip.a ip.b ip.c ip.d ha hb hc hd).0 p172,
            (
              (twentyfour ip.a ip.b ip.c ip.d ha hb hc hd 192 0 2 (omega arith) (omega arith)).0 d1,
              (
                (sixteen ip.a ip.b ip.c ip.d ha hb hc hd 192 168 (omega arith)).0 p192,
                (
                  (bench ip.a ip.b ip.c ip.d ha hb hc hd).0 lab,
                  (
                    (twentyfour ip.a ip.b ip.c ip.d ha hb hc hd 198 51 100 (omega arith)
                          (omega arith)).0
                        d2,
                    (
                      (twentyfour ip.a ip.b ip.c ip.d ha hb hc hd 203 0 113 (omega arith)
                            (omega arith)).0
                          d3,
                      ((reserved ip.a ip.b ip.c ip.d ha hb hc hd).0 top, tt),
                    ),
                  ),
                ),
              ),
            ),
          ),
        ),
      ),
    ),
  ),
)

from :
    (ip : Ipv4Addr)
    → IsOctets ip
    → All (Outside (number ip.a ip.b ip.c ip.d)) special_blocks
    → Passes ip
from ip (ha, hb, hc, hd)
      (
        b_zeroes,
        (
          b_ten,
          (
            b_cgn,
            (b_loopback, (b_link, (b_p172, (b_d1, (b_p192, (b_lab, (b_d2, (b_d3, (b_top, _))))))))),
          ),
        ),
      ) =
    (
      (whole ip.a ip.b ip.c ip.d ha hb hc hd 0).1 b_zeroes,
      (whole ip.a ip.b ip.c ip.d ha hb hc hd 10).1 b_ten,
      (shared ip.a ip.b ip.c ip.d ha hb hc hd).1 b_cgn,
      (whole ip.a ip.b ip.c ip.d ha hb hc hd 127).1 b_loopback,
      (sixteen ip.a ip.b ip.c ip.d ha hb hc hd 169 254 (omega arith)).1 b_link,
      (twelve ip.a ip.b ip.c ip.d ha hb hc hd).1 b_p172,
      (twentyfour ip.a ip.b ip.c ip.d ha hb hc hd 192 0 2 (omega arith) (omega arith)).1 b_d1,
      (sixteen ip.a ip.b ip.c ip.d ha hb hc hd 192 168 (omega arith)).1 b_p192,
      (bench ip.a ip.b ip.c ip.d ha hb hc hd).1 b_lab,
      (twentyfour ip.a ip.b ip.c ip.d ha hb hc hd 198 51 100 (omega arith) (omega arith)).1 b_d2,
      (twentyfour ip.a ip.b ip.c ip.d ha hb hc hd 203 0 113 (omega arith) (omega arith)).1 b_d3,
      (reserved ip.a ip.b ip.c ip.d ha hb hc hd).1 b_top,
    )

-- An address of four octets is public exactly if its number is outside each of the special blocks.
pub is_public_v4_iff :
    (ip : Ipv4Addr)
    → IsOctets ip
    → (is_public_v4 ip ≡ true) ↔ All (Outside (number ip.a ip.b ip.c ip.d)) special_blocks
unfolding is_public_v4
is_public_v4_iff ip octets =
    let (there, back) = not-true (is_special ip) in
    (
      λ e. to ip octets (Passes-public ip (there e)),
      λ h. back (public-Passes ip (from ip octets h)),
    )
