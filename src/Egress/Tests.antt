-- ===== src/Egress/Tests.antt =====
-- pkgs/host/wasm/src/egress.rs on concrete URLs. The tests' URLs are in lower case.
use jan_klod.Common.{
  split_scheme, split_once, rsplit_once, ℕ, ◌≡◌, ◌↔◌, refl, arith, String, true, List, [], ◌∷◌,
  Option, none, some, All, str_eq, ok, err, strip_prefix, parse_number, parse_digits, if◌then◌else◌,
}
use jan_klod.Permission.Paths.{split}
use jan_klod.Egress.{
  Ipv4Addr, IpAddr, v4, SocketAddr, resolved, connection_failed, is_public_v4, is_public,
  split_authority, host_port, origin_of, public_only, collect_public, check,
}
use jan_klod.Egress.Ranges.{number, special_blocks, Outside, is_public_v4_iff}
use jan_klod.Egress.Grants.{Reachable, check-Reachable}

abbrev lower : String → String
lower s = s

abbrev address : ℕ → ℕ → ℕ → ℕ → Ipv4Addr
address a b c d = record { a = a; b = b; c = c; d = d }

abbrev parse_ip : String → Option IpAddr
parse_ip host = if str_eq host "169.254.169.254" then some (v4 (address 169 254 169 254)) else none

abbrev answer : ℕ → SocketAddr
answer port = record { ip = v4 (address 93 184 216 34); port = port }

abbrev resolve : String → ℕ → Option (List SocketAddr)
resolve host port = some (answer port ∷ [])

host_port_run : host_port lower "http://me:pw@example.com:8080/a?b" ≡ some ("example.com", 8080)
unfolding host_port split_scheme split_authority split rsplit_once strip_prefix parse_number
    parse_digits
host_port_run = refl

bracketed_run : host_port lower "https://[2001:db8::1]/" ≡ some ("2001:db8::1", 443)
unfolding host_port split_scheme split_authority split split_once strip_prefix
bracketed_run = refl

metadata_run :
    check lower parse_ip resolve (public_only lower) "http://169.254.169.254/latest"
    ≡ err connection_failed
unfolding check origin_of host_port split_scheme split_authority split rsplit_once strip_prefix
    is_public is_public_v4
metadata_run = refl

named_run :
    check lower parse_ip resolve (public_only lower) "https://example.com/"
    ≡ ok (resolved (answer 443 ∷ []))
unfolding check origin_of host_port split_scheme split_authority split rsplit_once strip_prefix
    collect_public is_public is_public_v4
named_run = refl

check-Reachable_example :
    Reachable lower parse_ip resolve
      (public_only lower)
      "https://example.com/"
      (resolved (answer 443 ∷ []))
check-Reachable_example =
    check-Reachable lower parse_ip resolve (public_only lower) "https://example.com/"
      (resolved (answer 443 ∷ [])) named_run

is_public_v4_iff_example :
    (is_public_v4 (address 100 127 255 1) ≡ true)
    ↔ All (Outside (number 100 127 255 1)) special_blocks
is_public_v4_iff_example =
    is_public_v4_iff (address 100 127 255 1) (omega arith, omega arith, omega arith, omega arith)
