-- ===== src/Egress/Addresses.antt =====
-- pkgs/host/wasm/src/egress.rs: addresses, and which of them are public.
use jan_klod.Common.{
  ℕ, ◌/◌, ◌%◌, String, Bool, false, not, ◌&&◌, ◌||◌, List, Option, none, some, leb, ◌==◌,
  if◌then◌else◌,
}

pub record Ipv4Addr : Type 0 where
  pub a : ℕ
  pub b : ℕ
  pub c : ℕ
  pub d : ℕ

-- The eight segments.
pub record Ipv6Addr : Type 0 where
  pub s0 : ℕ
  pub s1 : ℕ
  pub s2 : ℕ
  pub s3 : ℕ
  pub s4 : ℕ
  pub s5 : ℕ
  pub s6 : ℕ
  pub s7 : ℕ

pub data IpAddr : Type 0 where
  v4 : Ipv4Addr → IpAddr
  v6 : Ipv6Addr → IpAddr

pub record SocketAddr : Type 0 where
  pub ip : IpAddr
  pub port : ℕ

pub data Destination : Type 0 where
  resolved : List SocketAddr → Destination
  as_named : Destination

-- The errors that a check returns.
pub data WireError : Type 0 where
  invalid_url connection_failed : WireError

-- A `HashSet`, as the list of what was inserted.
pub record EgressPolicy : Type 0 where
  pub allowed : List String

-- The tests of `std::net::Ipv4Addr`.
abbrev pub is_loopback : Ipv4Addr → Bool
is_loopback ip = ip.a == 127

abbrev pub is_private : Ipv4Addr → Bool
is_private ip =
    ip.a == 10 || (ip.a == 172 && leb 16 ip.b && leb ip.b 31) || (ip.a == 192 && ip.b == 168)

abbrev pub is_link_local : Ipv4Addr → Bool
is_link_local ip = ip.a == 169 && ip.b == 254

abbrev pub is_broadcast : Ipv4Addr → Bool
is_broadcast ip = ip.a == 255 && ip.b == 255 && ip.c == 255 && ip.d == 255

abbrev pub is_documentation : Ipv4Addr → Bool
is_documentation ip =
    (ip.a == 192 && ip.b == 0 && ip.c == 2)
    || (ip.a == 198 && ip.b == 51 && ip.c == 100)
    || (ip.a == 203 && ip.b == 0 && ip.c == 113)

abbrev pub is_unspecified : Ipv4Addr → Bool
is_unspecified ip = ip.a == 0 && ip.b == 0 && ip.c == 0 && ip.d == 0

unfoldable pub is_public_v4 : Ipv4Addr → Bool
is_public_v4 ip = not (
    is_loopback ip
    || is_private ip
    || is_link_local ip
    || is_broadcast ip
    || is_documentation ip
    || is_unspecified ip
    || ip.a == 0
    || (ip.a == 100 && leb 64 ip.b && leb ip.b 127)
    || (ip.a == 198 && (ip.b == 18 || ip.b == 19))
    || leb 240 ip.a)

-- The segments before the last two are zero, up to the sixth, `s5`, which is given.
abbrev pub starts_zero : Ipv6Addr → ℕ → Bool
starts_zero ip n = ip.s0 == 0 && ip.s1 == 0 && ip.s2 == 0 && ip.s3 == 0 && ip.s4 == 0 && ip.s5 == n

abbrev pub is_loopback_v6 : Ipv6Addr → Bool
is_loopback_v6 ip = starts_zero ip 0 && ip.s6 == 0 && ip.s7 == 1

abbrev pub is_unspecified_v6 : Ipv6Addr → Bool
is_unspecified_v6 ip = starts_zero ip 0 && ip.s6 == 0 && ip.s7 == 0

abbrev pub to_ipv4_mapped : Ipv6Addr → Option Ipv4Addr
to_ipv4_mapped ip =
    if starts_zero ip 65535
    then some (record { a = ip.s6 / 256; b = ip.s6 % 256; c = ip.s7 / 256; d = ip.s7 % 256 })
    else none

-- The masks of the first segment leave its first seven bits (`fc00::/7`) and ten bits (`fe80::/10`).
abbrev pub is_public_segment : ℕ → Bool
is_public_segment first = not (first / 512 == 126 || first / 64 == 1018)

abbrev pub is_public_mapped : ℕ → Option Ipv4Addr → Bool
is_public_mapped first (some ip) = is_public_v4 ip
is_public_mapped first none = is_public_segment first

unfoldable pub is_public_v6 : Ipv6Addr → Bool
is_public_v6 ip =
    if is_loopback_v6 ip || is_unspecified_v6 ip
    then false
    else is_public_mapped ip.s0 (to_ipv4_mapped ip)

unfoldable pub is_public : IpAddr → Bool
is_public (v4 ip) = is_public_v4 ip
is_public (v6 ip) = is_public_v6 ip
