-- ===== src/Egress/Grants.antt =====
-- pkgs/host/wasm/src/egress.rs: what `check` lets a component reach.
use jan_klod.Common.{
  ℕ, ◌≡◌, ◌≢◌, refl, sym, subst, ap, ◌∙◌, inl, inr, String, true, List, [], ◌∷◌, ◌++◌, append_assoc,
  append-nil, Option, none, some, any, str_eq, All, Bool-cases, Result, ok, err, ok-injective,
}
use jan_klod.Egress.{
  IpAddr, SocketAddr, Destination, resolved, as_named, WireError, connection_failed, EgressPolicy,
  is_public, host_port, origin_of, collect_public, check_resolved, check_named, check_host,
  check_origin, check,
}

-- Every address is public.
abbrev pub ArePublic : List SocketAddr → Type 0
ArePublic = All (λ (x : SocketAddr). is_public x.ip ≡ true)

-- The loop ends well only over public addresses, which it returns in their order.
collect_public-ArePublic :
    (addrs found : List SocketAddr) (d : Destination)
    → collect_public addrs found ≡ ok d
    → (d ≡ resolved (found ++ addrs)) × (found ++ addrs ≢ []) × ArePublic addrs
unfolding collect_public
collect_public-ArePublic [] [] d h = cc
collect_public-ArePublic [] (x ∷ found) d h =
    (sym (ok-injective h) ∙ ap resolved (sym (append-nil (x ∷ found))), λ e. cc, tt)
collect_public-ArePublic (addr ∷ addrs) found d h = elim (Bool-cases (is_public addr.ip)) [
  | inl e ↦
      let (same, filled, rest) =
        collect_public-ArePublic addrs (found ++ addr ∷ []) d (rw e at h) in
      (
        same ∙ ap resolved (append_assoc found (addr ∷ []) addrs),
        subst (λ l. l ≢ []) (append_assoc found (addr ∷ []) addrs) filled,
        (e, rest),
      )
  | inr e ↦ absurd (failed (rw e at h))
]
  where
    failed : ◌≡◌ {A = Result Destination WireError} (err connection_failed) (ok d) → ⊥
    failed h = cc

module _ (lower : String → String) (parse_ip : String → Option IpAddr)
    (to_socket_addrs : String → ℕ → Option (List SocketAddr)) where
  -- Why a destination may be reached.
  pub data Reachable (policy : EgressPolicy) (url : String) : Destination → Type 0 where
    granted :
        (origin : String)
        → origin_of lower url ≡ some origin
        → any (str_eq origin) policy.allowed ≡ true
        → Reachable policy url as_named
    literal :
        (host : String) (port : ℕ) (ip : IpAddr)
        → host_port lower url ≡ some (host, port)
        → parse_ip host ≡ some ip
        → is_public ip ≡ true
        → Reachable policy url as_named
    looked_up :
        (host : String) (port : ℕ) (addrs : List SocketAddr)
        → host_port lower url ≡ some (host, port)
        → parse_ip host ≡ none
        → to_socket_addrs host port ≡ some addrs
        → addrs ≢ []
        → ArePublic addrs
        → Reachable policy url (resolved addrs)

  of_named :
      (policy : EgressPolicy) (url host : String) (port : ℕ) (d : Destination)
      → host_port lower url ≡ some (host, port)
      → (ip : Option IpAddr) → parse_ip host ≡ ip
      → check_named lower parse_ip to_socket_addrs host port ip ≡ ok d
      → Reachable policy url d
  of_named policy url host port d e (some ip) f h = elim (Bool-cases (is_public ip)) [
    | inl p ↦ subst (Reachable policy url) (ok-injective (rw p at h)) (literal host port ip e f p)
    | inr p ↦ absurd (failed (rw p at h))
  ]
    where
      failed : ◌≡◌ {A = Result Destination WireError} (err connection_failed) (ok d) → ⊥
      failed h = cc
  of_named policy url host port d e none f h = of_answer (to_socket_addrs host port) refl h
    where
      of_answer :
          (found : Option (List SocketAddr))
          → to_socket_addrs host port ≡ found
          → check_resolved lower parse_ip to_socket_addrs found ≡ ok d
          → Reachable policy url d
      of_answer none g h = cc
      of_answer (some addrs) g h =
          let (same, filled, all_public) = collect_public-ArePublic addrs [] d h in
          subst (Reachable policy url) (sym same)
            (looked_up host port addrs e f g filled all_public)

  of_host :
      (policy : EgressPolicy) (url : String) (d : Destination) (parts : Option (String × ℕ))
      → host_port lower url ≡ parts
      → check_host lower parse_ip to_socket_addrs parts ≡ ok d
      → Reachable policy url d
  of_host policy url d none e h = cc
  of_host policy url d (some (host, port)) e h =
      of_named policy url host port d e (parse_ip host) refl h

  of_origin :
      (policy : EgressPolicy) (url : String) (d : Destination) (origin : Option String)
      → origin_of lower url ≡ origin
      → check_origin lower parse_ip to_socket_addrs policy url origin ≡ ok d
      → Reachable policy url d
  of_origin policy url d none e h = cc
  of_origin policy url d (some origin) e h =
      elim (Bool-cases (any (str_eq origin) policy.allowed)) [
        | inl p ↦ subst (Reachable policy url) (ok-injective (rw p at h)) (granted origin e p)
        | inr p ↦ of_host policy url d (host_port lower url) refl (rw p at h)
      ]

  -- A component reaches a destination only if the operator granted the origin of its URL, or the URL
  -- names a public address, or it names a host that has addresses, each of them public, and then it is
  -- these addresses that are connected to.
  pub check-Reachable :
      (policy : EgressPolicy) (url : String) (d : Destination)
      → check lower parse_ip to_socket_addrs policy url ≡ ok d
      → Reachable policy url d
  unfolding check
  check-Reachable policy url d h = of_origin policy url d (origin_of lower url) refl h
