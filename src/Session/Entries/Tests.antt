-- ===== src/Session/Entries/Tests.antt =====
-- pkgs/host/session/src/store.rs on a small table `entries`.
use jan_klod.Common.{◌≡◌, ◌≢◌, refl, eq_iff, String, List, [], ◌∷◌, ok, err, ℕ}
use jan_klod.Session.Store.{not_found}
use jan_klod.Session.Entries.{
  EntryRow, get, set, delete, purge_namespace, upsert, recent, newest_first, sort_newest,
  insert_newest, list_namespaces, namespace_groups, add_to_group, sort_groups, insert_group,
  entry_of,
}
use jan_klod.Session.Entries.Maps.{lookup, entry_after, set-delete-purge_lem}

abbrev row : String → String → String → ℕ → ℕ → EntryRow
row namespace key value created updated = record {
  namespace = namespace;
  key = key;
  value = value;
  created_at = created;
  updated_at = updated;
}

abbrev table : List EntryRow
table = row "a" "x" "1" 3 3 ∷ row "b" "x" "2" 4 9 ∷ row "a" "y" "3" 5 5 ∷ row "a" "z" "4" 5 5 ∷ []

set_run :
    (set table "a" "x" "5" 7).1
    ≡ row "a" "x" "5" 3 7 ∷ row "b" "x" "2" 4 9 ∷ row "a" "y" "3" 5 5 ∷ row "a" "z" "4" 5 5 ∷ []
unfolding set upsert
set_run = refl

recent_run :
    recent table "a" 2 ≡ entry_of (row "a" "z" "4" 5 5) ∷ entry_of (row "a" "y" "3" 5 5) ∷ []
unfolding recent newest_first sort_newest insert_newest
recent_run = refl

list_namespaces_run : list_namespaces table ≡ "b" ∷ "a" ∷ []
unfolding list_namespaces namespace_groups add_to_group sort_groups insert_group
list_namespaces_run = refl

x_ne_y : ◌≢◌ {A = String} "x" "y"
x_ne_y e = let f = (eq_iff "x" "y").1 e in cc

a_ne_b : ◌≢◌ {A = String} "a" "b"
a_ne_b e = let f = (eq_iff "a" "b").1 e in cc

set-delete-purge_lem_example :
    ((set table "a" "x" "5" 7).0 ≡ ok (entry_after table "a" "x" "5" 7 (lookup table "a" "x")))
    × (get (set table "a" "x" "5" 7).1 "a" "x"
        ≡ ok (entry_after table "a" "x" "5" 7 (lookup table "a" "x")))
    × (get (set table "a" "x" "5" 7).1 "a" "y" ≡ get table "a" "y")
    × (get (delete table "a" "x") "a" "x" ≡ err not_found)
    × (get (delete table "a" "x") "a" "y" ≡ get table "a" "y")
    × (get (purge_namespace table "a") "a" "y" ≡ err not_found)
    × (get (purge_namespace table "a") "b" "y" ≡ get table "b" "y")
set-delete-purge_lem_example =
    set-delete-purge_lem table "a" "x" "5" 7 "a" "y" "b" (λ e. x_ne_y) a_ne_b
