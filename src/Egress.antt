-- ===== src/Egress.antt =====
-- pkgs/host/wasm/src/egress.rs: which destinations a component may reach. Parsing an address and
-- resolving a name are the standard library's; `check` takes them as parameters.
mod Addresses
unfoldable pub use Addresses.*
pub mod Ranges
pub mod Grants
pub mod Tests
use jan_klod.Common.{
  ℕ, ◌/◌, ◌%◌, String, Bool, true, false, not, ◌&&◌, ◌||◌, List, [], ◌∷◌, ◌++◌, Option, none, some,
  any, str_eq, is_empty, format, decimal, strip_prefix, parse_number, leb, ◌==◌, Result, ok, err,
  if◌then◌else◌, split_once, rsplit_once, split_scheme,
}
use Prim.Native.Char.{Char, code}
use Prim.Native.String
use jan_klod.Json.{◌>>=◌}
use jan_klod.Permission.Paths.{split, first_or, last_or}

abbrev pub ends_authority : Char → Bool
ends_authority c = code c == 47 || code c == 63 || code c == 35

abbrev pub is_at_sign : Char → Bool
is_at_sign c = code c == 64

abbrev pub u16_max : ℕ
u16_max = 65535

-- The loop over the addresses: the first that is not public ends it.
unfoldable pub collect_public : List SocketAddr → List SocketAddr → Result Destination WireError
collect_public [] [] = err connection_failed
collect_public [] (x ∷ found) = ok (resolved (x ∷ found))
collect_public (addr ∷ addrs) found =
    if not (is_public addr.ip)
    then err connection_failed
    else collect_public addrs (found ++ addr ∷ [])

module _ (lower : String → String) where
  abbrev pub default_port : String → ℕ
  default_port scheme = if str_eq scheme "https" then 443 else 80

  abbrev pub port_after : String → Option String → Option ℕ
  port_after scheme none = some (default_port scheme)
  port_after scheme (some p) = parse_number u16_max p

  -- An address in brackets, from after the first one.
  abbrev pub bracketed : String → String → Option (String × ℕ)
  bracketed scheme rest = do
    (host, tail) ← split_once 93 rest
    port ← port_after scheme (strip_prefix tail ":")
    some (lower host, port)

  abbrev pub named : String → String → Option (String × String) → Option (String × ℕ)
  named scheme authority none = some (lower authority, default_port scheme)
  named scheme authority (some (host, port)) =
      if is_empty host
      then some (lower authority, default_port scheme)
      else (parse_number u16_max port >>= λ p. some (lower host, p))

  abbrev pub authority_parts : String → String → Option String → Option (String × ℕ)
  authority_parts scheme authority (some rest) = bracketed scheme rest
  authority_parts scheme authority none = named scheme authority (rsplit_once 58 authority)

  unfoldable pub split_authority : String → String → Option (String × ℕ)
  split_authority authority scheme = authority_parts scheme authority (strip_prefix authority "[")

  -- `rest.split(['/', '?', '#']).next()`, and of that `rsplit('@').next()`.
  abbrev pub authority_of : String → String
  authority_of rest =
      let authority = first_or rest (split ends_authority rest) in
      last_or authority (split is_at_sign authority)

  unfoldable pub host_port : String → Option (String × ℕ)
  host_port url = do
    (scheme, rest) ← split_scheme url
    split_authority (authority_of rest) (lower scheme)

  abbrev pub origin_text : String → String × ℕ → String
  origin_text scheme (host, port) = format (scheme ∷ "://" ∷ host ∷ ":" ∷ decimal port ∷ [])

  abbrev pub is_web : String → Bool
  is_web scheme = str_eq scheme "http" || str_eq scheme "https"

  abbrev pub origin_at : String → String → Option String
  origin_at scheme authority =
      if not (is_web scheme) || is_empty authority
      then none
      else (split_authority authority scheme >>= λ parts. some (origin_text scheme parts))

  unfoldable pub origin_of : String → Option String
  origin_of url = do (scheme, rest) ← split_scheme url; origin_at (lower scheme) (authority_of rest)

  abbrev pub public_only : EgressPolicy
  public_only = record { allowed = [] }

  abbrev pub insert_origin : EgressPolicy → Option String → EgressPolicy
  insert_origin policy none = policy
  insert_origin policy (some origin) = record { allowed = origin ∷ policy.allowed }

  unfoldable pub allowing : EgressPolicy → String → EgressPolicy
  allowing policy url = insert_origin policy (origin_of url)

  module _ (parse_ip : String → Option IpAddr)
      (to_socket_addrs : String → ℕ → Option (List SocketAddr)) where
    abbrev pub check_resolved : Option (List SocketAddr) → Result Destination WireError
    check_resolved none = err connection_failed
    check_resolved (some addrs) = collect_public addrs []

    abbrev pub check_named : String → ℕ → Option IpAddr → Result Destination WireError
    check_named host port (some ip) = if is_public ip then ok as_named else err connection_failed
    check_named host port none = check_resolved (to_socket_addrs host port)

    abbrev pub check_host : Option (String × ℕ) → Result Destination WireError
    check_host none = err invalid_url
    check_host (some (host, port)) = check_named host port (parse_ip host)

    abbrev pub check_origin : EgressPolicy → String → Option String → Result Destination WireError
    check_origin policy url none = err invalid_url
    check_origin policy url (some origin) =
        if any (str_eq origin) policy.allowed then ok as_named else check_host (host_port url)

    unfoldable pub check : EgressPolicy → String → Result Destination WireError
    check policy url = check_origin policy url (origin_of url)
