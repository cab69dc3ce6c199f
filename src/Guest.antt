-- ===== src/Guest.antt =====
-- pkgs/host/wasm/src/guest_storage.rs: the key-value storage that a component is given. Its namespaces
-- are prefixed, so what two components, or two sessions, ask for lands apart. A hash map is the
-- list of its cells, in any order that its inserts give.
pub mod Calls
pub mod Placed
pub mod Apart
pub mod Reads
pub mod Table
pub mod Tests
use jan_klod.Common.{
  ℕ, ◌+◌, ◌%◌, ◌^◌, String, Bool, true, false, not, ◌&&◌, List, [], ◌∷◌, map, Option, none, some,
  find, retain, str_eq, format, leb, take, strip_prefix, Result, ok, err, ok_or, any, if◌then◌else◌,
}
use mathlib.Core.Option
use jan_klod.Permission.Rules.{or_else}
use jan_klod.Session.EventLog.{u32_max}

pub data StorageFault : Type 0 where
  not_found : StorageFault
  backend : StorageFault

-- A row of the store, in the namespace that it is stored under.
pub record Row : Type 0 where
  pub namespace : String
  pub key : String
  pub value : String
  pub created_at : ℕ
  pub updated_at : ℕ

-- The durable store that a component reaches; what it keeps is `W`.
pub record Entries (W : Type 0) : Type 0 where
  pub set : String → String → String → W → Result Row StorageFault × W
  pub get : String → String → W → Result Row StorageFault
  pub delete : String → String → W → Result (Unit {0}) StorageFault × W
  pub recent : String → ℕ → W → Result (List Row) StorageFault

-- An entry as the component sees it, in the namespace that it asked for.
pub record StoredEntry : Type 0 where
  pub id : String
  pub namespace : String
  pub key : String
  pub value : String
  pub created_at : ℕ
  pub updated_at : ℕ

-- The private map: by scoped namespace and key, the value with its times.
pub record Held : Type 0 where
  pub namespace : String
  pub key : String
  pub value : String
  pub created : ℕ
  pub updated : ℕ

pub data Backing (W : Type 0) : Type 0 where
  ephemeral : List Held → ℕ → Backing W
  durable : Entries W → String → Backing W

pub record GuestStorage (W : Type 0) : Type 0 where
  pub backing : Backing W
  pub by_session : Bool
  pub session : Option String

abbrev pub row_entry : String → Row → StoredEntry
row_entry namespace row = record {
  id = format (namespace ∷ "/" ∷ row.key ∷ []);
  namespace = namespace;
  key = row.key;
  value = row.value;
  created_at = row.created_at;
  updated_at = row.updated_at;
}

-- `Result::map`.
abbrev pub map_ok : {A B E : Type 0} → (A → B) → Result A E → Result B E
map_ok f (ok a) = ok (f a)
map_ok f (err e) = err e

-- The namespace in its session; the session-scoped storage of no session refuses.
abbrev pub within : Bool → Option String → String → Result String StorageFault
within false session namespace = ok namespace
within true (some session) namespace = ok (format ("s/" ∷ session ∷ "/" ∷ namespace ∷ []))
within true none namespace = err StorageFault.backend

abbrev pub inside : Bool → Option String → String → String
inside true (some session) name =
    or_else (strip_prefix name (format ("s/" ∷ session ∷ "/" ∷ []))) name
inside true none name = name
inside false session name = name

module _ {W : Type 0} where
  unfoldable pub shared : Backing W → GuestStorage W
  shared backing = record { backing = backing; by_session = false; session = none }

  unfoldable pub per_session : Backing W → GuestStorage W
  per_session backing = record { backing = backing; by_session = true; session = none }

  unfoldable pub bind_session : String → GuestStorage W → GuestStorage W
  bind_session session g = record g { session = some session }

  abbrev pub owned : Backing W → String → String
  owned (ephemeral cells clock) inner = inner
  owned (durable rows owner) inner = format ("ext/" ∷ owner ∷ "/" ∷ inner ∷ [])

  unfoldable pub scope : GuestStorage W → String → Result String StorageFault
  scope g namespace = map_ok (owned g.backing) (within g.by_session g.session namespace)

  abbrev pub outer : Backing W → String → String
  outer (ephemeral cells clock) namespace = namespace
  outer (durable rows owner) namespace =
      or_else (strip_prefix namespace (format ("ext/" ∷ owner ∷ "/" ∷ []))) namespace

  unfoldable pub unscope : GuestStorage W → String → String
  unscope g namespace = inside g.by_session g.session (outer g.backing namespace)

  unfoldable pub present : GuestStorage W → Row → StoredEntry
  present g row = row_entry (unscope g row.namespace) row
