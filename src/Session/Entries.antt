-- ===== src/Session/Entries.antt =====
-- pkgs/host/session/src/store.rs: the `entries` table, the key-value part of the session store. The
-- table is the list of its rows in the order of `rowid`; SQLite's own failures are not modelled, and
-- its operator LIKE is the parameter `like` of `search`.
pub mod Maps
pub mod Tests
use jan_klod.Common.{
  ℕ, ◌+◌, String, Bool, true, false, not, ◌&&◌, ◌||◌, List, [], ◌∷◌, ◌++◌, map, Option, none, some,
  str_eq, format, min, max, leb, ltb, ◌==◌, retain, find, take, Result, ok_or, if◌then◌else◌,
}
use Prim.Native.Nat.{Ordering}
use Prim.Native.String
use mathlib.Core.Option
use jan_klod.Session.Store.{StoreError, not_found, i64_max}

pub record Entry : Type 0 where
  pub id : String
  pub namespace : String
  pub key : String
  pub value : String
  pub created_at : ℕ
  pub updated_at : ℕ

-- A row of the table `entries`; its primary key is the namespace with the key.
pub record EntryRow : Type 0 where
  pub namespace : String
  pub key : String
  pub value : String
  pub created_at : ℕ
  pub updated_at : ℕ

abbrev pub is_at : String → String → EntryRow → Bool
is_at namespace key r = str_eq r.namespace namespace && str_eq r.key key

abbrev pub in_namespace : String → EntryRow → Bool
in_namespace namespace r = str_eq r.namespace namespace

abbrev pub entry_of : EntryRow → Entry
entry_of r = record {
  id = format (r.namespace ∷ "/" ∷ r.key ∷ []);
  namespace = r.namespace;
  key = r.key;
  value = r.value;
  created_at = r.created_at;
  updated_at = r.updated_at;
}

-- `INSERT .. ON CONFLICT DO UPDATE`: a row of that key keeps its place and its `created_at`.
unfoldable pub upsert : EntryRow → List EntryRow → List EntryRow
upsert new [] = new ∷ []
upsert new (r ∷ rs) =
    if is_at new.namespace new.key r
    then record r { value = new.value; updated_at = new.updated_at } ∷ rs
    else r ∷ upsert new rs

unfoldable pub get : List EntryRow → String → String → Result Entry StoreError
get rows namespace key = ok_or (Option.map entry_of (find (is_at namespace key) rows)) not_found

abbrev pub new_row : String → String → String → ℕ → EntryRow
new_row namespace key value now = record {
  namespace = namespace;
  key = key;
  value = value;
  created_at = min now i64_max;
  updated_at = min now i64_max;
}

-- `set` at the time `now`, with what it reads back.
unfoldable pub set :
    List EntryRow → String → String → String → ℕ → Result Entry StoreError × List EntryRow
set rows namespace key value now =
    let after = upsert (new_row namespace key value now) rows in (get after namespace key, after)

unfoldable pub delete : List EntryRow → String → String → List EntryRow
delete rows namespace key = retain (λ r. not (is_at namespace key r)) rows

unfoldable pub purge_namespace : List EntryRow → String → List EntryRow
purge_namespace rows namespace = retain (λ r. not (in_namespace namespace r)) rows

-- `ORDER BY updated_at DESC, rowid DESC`: a row goes before the rows of smaller `rowid` that were not
-- updated after it.
unfoldable pub insert_newest : EntryRow → List EntryRow → List EntryRow
insert_newest r [] = r ∷ []
insert_newest r (x ∷ xs) =
    if leb x.updated_at r.updated_at then r ∷ (x ∷ xs) else x ∷ insert_newest r xs

-- The rows, of which those in `sorted` are in order already and of smaller `rowid`.
unfoldable pub sort_newest : List EntryRow → List EntryRow → List EntryRow
sort_newest sorted [] = sorted
sort_newest sorted (r ∷ rs) = sort_newest (insert_newest r sorted) rs

unfoldable pub newest_first : List EntryRow → String → List EntryRow
newest_first rows namespace = sort_newest [] (retain (in_namespace namespace) rows)

-- The key without its payload.
abbrev pub without_value : EntryRow → Entry
without_value r = record (entry_of r) { value = "" }

unfoldable pub list_keys : List EntryRow → String → List Entry
list_keys rows namespace = map without_value (newest_first rows namespace)

unfoldable pub recent : List EntryRow → String → ℕ → List Entry
recent rows namespace limit = map entry_of (take limit (newest_first rows namespace))

unfoldable pub search : (String → String → Bool) → List EntryRow → String → String → ℕ → List Entry
search like rows namespace query limit =
    let pattern = format ("%" ∷ query ∷ "%" ∷ []) in
    map entry_of (take limit (retain (λ r. like r.value pattern) (newest_first rows namespace)))

-- `ORDER BY` a text: by its characters, as the `BINARY` collation has it.
abbrev pub text_before : String → String → Bool
text_before s t = elim (String.compare s t) [ Ordering.lt ↦ true | _ ↦ false ]

-- A group of rows: its name, and the largest of a number of its rows.
pub record Group : Type 0 where
  pub name : String
  pub latest : ℕ

unfoldable pub add_to_group : String → ℕ → List Group → List Group
add_to_group name n [] = record { name = name; latest = n } ∷ []
add_to_group name n (g ∷ gs) =
    if str_eq g.name name
    then record g { latest = max n g.latest } ∷ gs
    else g ∷ add_to_group name n gs

-- `ORDER BY MAX(..) DESC, name ASC`.
abbrev pub group_before : Group → Group → Bool
group_before a b = ltb b.latest a.latest || (a.latest == b.latest && text_before a.name b.name)

unfoldable pub insert_group : Group → List Group → List Group
insert_group g [] = g ∷ []
insert_group g (x ∷ xs) = if group_before g x then g ∷ (x ∷ xs) else x ∷ insert_group g xs

unfoldable pub sort_groups : List Group → List Group
sort_groups [] = []
sort_groups (g ∷ gs) = insert_group g (sort_groups gs)

unfoldable pub namespace_groups : List EntryRow → List Group
namespace_groups [] = []
namespace_groups (r ∷ rs) = add_to_group r.namespace r.updated_at (namespace_groups rs)

unfoldable pub list_namespaces : List EntryRow → List String
list_namespaces rows = map (λ (g : Group). g.name) (sort_groups (namespace_groups rows))
