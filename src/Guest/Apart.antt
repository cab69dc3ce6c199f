-- ===== src/Guest/Apart.antt =====
-- pkgs/host/wasm/src/guest_storage.rs: two components, or two sessions of one, do not reach what is
-- each other's in the store that they share.
use jan_klod.Common.{◌≡◌, ◌≢◌, refl, sym, ap, ◌∙◌, String, [], ◌∷◌, format, ok}
use jan_klod.Guest.{
  Entries, durable, GuestStorage, map_ok, scope, shared, per_session, bind_session, present,
}
use jan_klod.Guest.Calls.{set, get, delete}
use jan_klod.Guest.Placed.{IsUnslashed, format-injective}

-- What a store promises: a write or a removal at one key leaves the rows of other namespaces alone.
pub record KeepsApart {W : Type 0} (rows : Entries W) : Type 0 where
  pub set_other :
      (ns ns' k k' v : String) (w : W)
      → ns ≢ ns'
      → rows.get ns' k' (rows.set ns k v w).1 ≡ rows.get ns' k' w
  pub delete_other :
      (ns ns' k k' : String) (w : W)
      → ns ≢ ns'
      → rows.get ns' k' (rows.delete ns k w).1 ≡ rows.get ns' k' w

-- Who calls: a component, in all sessions or in one.
pub data Tenant : Type 0 where
  component : String → Tenant
  in_session : String → String → Tenant

abbrev pub owner_of : Tenant → String
owner_of (component o) = o
owner_of (in_session o s) = o

-- The storage of a tenant over a store.
abbrev pub storage_of : {W : Type 0} → Entries W → Tenant → GuestStorage W
storage_of rows (component owner) = shared (durable rows owner)
storage_of rows (in_session owner session) = bind_session session (per_session (durable rows owner))

-- Two components, or two sessions of any; no name has a slash.
pub data AreApart : Tenant → Tenant → Type 0 where
  owners_differ :
      (a b : Tenant)
      → IsUnslashed (owner_of a)
      → IsUnslashed (owner_of b)
      → owner_of a ≢ owner_of b
      → AreApart a b
  sessions_differ :
      (o o' s s' : String)
      → IsUnslashed o
      → IsUnslashed o'
      → IsUnslashed s
      → IsUnslashed s'
      → s ≢ s'
      → AreApart (in_session o s) (in_session o' s')

module _ {W : Type 0} (rows : Entries W) where
  -- Where a tenant's namespace lands.
  abbrev inner_of : Tenant → String → String
  inner_of (component o) ns = ns
  inner_of (in_session o s) ns = format ("s/" ∷ s ∷ "/" ∷ ns ∷ [])

  abbrev landed : Tenant → String → String
  landed a ns = format ("ext/" ∷ owner_of a ∷ "/" ∷ inner_of a ns ∷ [])

  scope-storage_of : (a : Tenant) (ns : String) → scope (storage_of rows a) ns ≡ ok (landed a ns)
  unfolding scope shared per_session bind_session
  scope-storage_of (component o) ns = refl
  scope-storage_of (in_session o s) ns = refl

  backing-storage_of : (a : Tenant) → (storage_of rows a).backing ≡ durable rows (owner_of a)
  unfolding shared per_session bind_session
  backing-storage_of (component o) = refl
  backing-storage_of (in_session o s) = refl

  landed-ne : (a b : Tenant) → AreApart a b → (ns ns' : String) → landed a ns ≢ landed b ns'
  landed-ne a b (owners_differ _ _ ua ub apart) ns ns' e =
      apart
        (format-injective "ext/" (owner_of a) (owner_of b) (inner_of a ns) (inner_of b ns') ua ub
          e).0
  landed-ne _ _ (sessions_differ o o' s s' uo uo' us us' apart) ns ns' e =
      let inner =
        (format-injective "ext/" o o' (inner_of (in_session o s) ns)
          (inner_of (in_session o' s') ns') uo uo' e).1 in
      apart (format-injective "s/" s s' ns ns' us us' inner).0

  get-landed :
      (a : Tenant) (ns k : String) (w : W)
      → get (storage_of rows a) ns k w
        ≡ map_ok (present (storage_of rows a)) (rows.get (landed a ns) k w)
  unfolding get
  get-landed a ns k w = rw (scope-storage_of a ns, backing-storage_of a) refl

  set-landed :
      (a : Tenant) (ns k v : String) (w : W)
      → (set (storage_of rows a) ns k v w).1 ≡ (storage_of rows a, (rows.set (landed a ns) k v w).1)
  unfolding set
  set-landed a ns k v w = rw (scope-storage_of a ns, backing-storage_of a) refl

  delete-landed :
      (a : Tenant) (ns k : String) (w : W)
      → (delete (storage_of rows a) ns k w).1
        ≡ (storage_of rows a, (rows.delete (landed a ns) k w).1)
  unfolding delete
  delete-landed a ns k w = rw (scope-storage_of a ns, backing-storage_of a) refl

  -- Over a store that keeps the rows of other namespaces as they are at each write and removal: what one
  -- tenant sets or removes, in whatever namespace it names, changes nothing of what a tenant apart from it
  -- reads, in whatever namespace that one names. Tenants are apart if they are two components, or two
  -- sessions of any, and none of these names has a slash.
  pub set-delete-AreApart :
      KeepsApart rows
      → (a b : Tenant) → AreApart a b
      → (ns k v ns' k' : String) (w : W)
      → (get (storage_of rows b) ns' k' (set (storage_of rows a) ns k v w).1.1
          ≡ get (storage_of rows b) ns' k' w)
        × (get (storage_of rows b) ns' k' (delete (storage_of rows a) ns k w).1.1
            ≡ get (storage_of rows b) ns' k' w)
  set-delete-AreApart keeps a b apart ns k v ns' k' w =
      let ne = landed-ne a b apart ns ns' in
      (
        ap (λ t. get (storage_of rows b) ns' k' t.1) (set-landed a ns k v w)
            ∙ same (keeps.set_other (landed a ns) (landed b ns') k k' v w ne),
        ap (λ t. get (storage_of rows b) ns' k' t.1) (delete-landed a ns k w)
            ∙ same (keeps.delete_other (landed a ns) (landed b ns') k k' w ne),
      )
    where
      same :
          {u : W}
          → rows.get (landed b ns') k' u ≡ rows.get (landed b ns') k' w
          → get (storage_of rows b) ns' k' u ≡ get (storage_of rows b) ns' k' w
      same {u} e =
          get-landed b ns' k' u
          ∙ ap (map_ok (present (storage_of rows b))) e
          ∙ sym (get-landed b ns' k' w)
