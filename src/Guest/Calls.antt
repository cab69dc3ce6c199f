-- ===== src/Guest/Calls.antt =====
-- pkgs/host/wasm/src/guest_storage.rs: what a component calls on its storage.
use jan_klod.Common.{
  ℕ, ◌+◌, ◌%◌, ◌^◌, String, Bool, not, ◌&&◌, List, [], ◌∷◌, map, Option, none, some, find, retain,
  str_eq, format, leb, take, Result, ok, err, ok_or, if◌then◌else◌,
}
use mathlib.Core.Option
use jan_klod.Session.EventLog.{u32_max}
use jan_klod.Guest.{
  StorageFault, StoredEntry, Held, Backing, ephemeral, durable, GuestStorage, map_ok, scope,
  present,
}

abbrev pub is_cell : String → String → Held → Bool
is_cell namespace key c = str_eq c.namespace namespace && str_eq c.key key

-- `HashMap::insert`.
unfoldable pub insert_cell : Held → List Held → List Held
insert_cell new cells = new ∷ retain (λ c. not (is_cell new.namespace new.key c)) cells

abbrev pub cell_entry : String → Held → StoredEntry
cell_entry namespace c = record {
  id = format (namespace ∷ "/" ∷ c.key ∷ []);
  namespace = namespace;
  key = c.key;
  value = c.value;
  created_at = c.created;
  updated_at = c.updated;
}

-- `sort_by_key` on the time of the update, the latest first; entries of one time keep their order.
unfoldable pub insert_latest : StoredEntry → List StoredEntry → List StoredEntry
insert_latest e [] = e ∷ []
insert_latest e (x ∷ xs) =
    if leb x.updated_at e.updated_at then e ∷ (x ∷ xs) else x ∷ insert_latest e xs

unfoldable pub sort_latest : List StoredEntry → List StoredEntry
sort_latest [] = []
sort_latest (e ∷ es) = insert_latest e (sort_latest es)

abbrev pub created_of : Option Held → ℕ → ℕ
created_of none now = now
created_of (some c) now = c.created

abbrev pub new_cell : String → String → String → ℕ → Option Held → Held
new_cell scoped key value now old = record {
  namespace = scoped;
  key = key;
  value = value;
  created = created_of old now;
  updated = now;
}

-- The clock of 64 bits goes on by one with each write.
abbrev pub tick : ℕ → ℕ
tick clock = (clock + 1) % 2 ^ 64

abbrev pub removed : Option Held → Result (Unit {0}) StorageFault
removed none = err StorageFault.not_found
removed (some c) = ok tt

module _ {W : Type 0} where
  abbrev pub set_in :
      GuestStorage W
      → String
      → String
      → String
      → Backing W
      → String
      → W
      → Result StoredEntry StorageFault × (GuestStorage W × W)
  set_in g namespace key value (ephemeral cells clock) scoped w =
      let now = tick clock in
      let cell = new_cell scoped key value now (find (is_cell scoped key) cells) in
      (
        ok (cell_entry namespace cell),
        (record g { backing = ephemeral (insert_cell cell cells) now }, w),
      )
  set_in g namespace key value (durable rows owner) scoped w =
      let stored = rows.set scoped key value w in (map_ok (present g) stored.0, (g, stored.1))

  abbrev pub set_scoped :
      GuestStorage W
      → String
      → String
      → String
      → Result String StorageFault
      → W
      → Result StoredEntry StorageFault × (GuestStorage W × W)
  set_scoped g namespace key value (err e) w = (err e, (g, w))
  set_scoped g namespace key value (ok scoped) w = set_in g namespace key value g.backing scoped w

  unfoldable pub set :
      GuestStorage W
      → String
      → String
      → String
      → W
      → Result StoredEntry StorageFault × (GuestStorage W × W)
  set g namespace key value w = set_scoped g namespace key value (scope g namespace) w

  abbrev pub get_in :
      GuestStorage W → String → String → Backing W → String → W → Result StoredEntry StorageFault
  get_in g namespace key (ephemeral cells clock) scoped w =
      ok_or (Option.map (cell_entry namespace) (find (is_cell scoped key) cells))
        StorageFault.not_found
  get_in g namespace key (durable rows owner) scoped w = map_ok (present g) (rows.get scoped key w)

  abbrev pub get_scoped :
      GuestStorage W
      → String
      → String
      → Result String StorageFault
      → W
      → Result StoredEntry StorageFault
  get_scoped g namespace key (err e) w = err e
  get_scoped g namespace key (ok scoped) w = get_in g namespace key g.backing scoped w

  unfoldable pub get : GuestStorage W → String → String → W → Result StoredEntry StorageFault
  get g namespace key w = get_scoped g namespace key (scope g namespace) w

  abbrev pub delete_in :
      GuestStorage W
      → String
      → Backing W
      → String
      → W
      → Result (Unit {0}) StorageFault × (GuestStorage W × W)
  delete_in g key (ephemeral cells clock) scoped w = (
    removed (find (is_cell scoped key) cells),
    (record g { backing = ephemeral (retain (λ c. not (is_cell scoped key c)) cells) clock }, w),
  )
  delete_in g key (durable rows owner) scoped w =
      let done = rows.delete scoped key w in (done.0, (g, done.1))

  abbrev pub delete_scoped :
      GuestStorage W
      → String
      → Result String StorageFault
      → W
      → Result (Unit {0}) StorageFault × (GuestStorage W × W)
  delete_scoped g key (err e) w = (err e, (g, w))
  delete_scoped g key (ok scoped) w = delete_in g key g.backing scoped w

  unfoldable pub delete :
      GuestStorage W → String → String → W → Result (Unit {0}) StorageFault × (GuestStorage W × W)
  delete g namespace key w = delete_scoped g key (scope g namespace) w

  abbrev pub list_in :
      GuestStorage W → String → Backing W → String → W → Result (List StoredEntry) StorageFault
  list_in g namespace (ephemeral cells clock) scoped w =
      ok (map (cell_entry namespace) (retain (λ c. str_eq c.namespace scoped) cells))
  list_in g namespace (durable rows owner) scoped w =
      map_ok (map (present g)) (rows.recent scoped u32_max w)

  abbrev pub list_scoped :
      GuestStorage W
      → String
      → Result String StorageFault
      → W
      → Result (List StoredEntry) StorageFault
  list_scoped g namespace (err e) w = err e
  list_scoped g namespace (ok scoped) w = list_in g namespace g.backing scoped w

  unfoldable pub entries_in : GuestStorage W → String → W → Result (List StoredEntry) StorageFault
  entries_in g namespace w = list_scoped g namespace (scope g namespace) w

  unfoldable pub recent : GuestStorage W → String → ℕ → W → Result (List StoredEntry) StorageFault
  recent g namespace limit w =
      map_ok (λ entries. take limit (sort_latest entries)) (entries_in g namespace w)
