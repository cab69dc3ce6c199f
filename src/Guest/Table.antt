-- ===== src/Guest/Table.antt =====
-- pkgs/host/agent/src/session_entries.rs: the session store as the store of the components. A poisoned
-- lock is not modelled; the table is paired with the time of the clock.
use jan_klod.Common.{ℕ, ◌≢◌, refl, ap, String, List, map, Result, ok, err}
use jan_klod.Session.Store.{StoreError}
use jan_klod.Session.Entries as Table
use jan_klod.Session.Entries.{Entry, EntryRow}
use jan_klod.Session.Entries.Maps.{entry_after, lookup, set-delete-purge_lem}
use jan_klod.Guest.{StorageFault, Row, Entries, map_ok}
use jan_klod.Guest.Apart.{KeepsApart}
use jan_klod.Guest.Reads.{Written}

abbrev pub fault : StoreError → StorageFault
fault StoreError.not_found = StorageFault.not_found
fault (StoreError.backend detail) = StorageFault.backend

unfoldable pub row : Entry → Row
row entry = record {
  namespace = entry.namespace;
  key = entry.key;
  value = entry.value;
  created_at = entry.created_at;
  updated_at = entry.updated_at;
}

abbrev pub with_fault : {A : Type 0} → Result A StoreError → Result A StorageFault
with_fault (ok a) = ok a
with_fault (err e) = err (fault e)

unfoldable pub session_entries : ℕ → Entries (List EntryRow)
session_entries now = record {
  set = λ namespace key value rows.
      let done = Table.set rows namespace key value now in (map_ok row (with_fault done.0), done.1);
  get = λ namespace key rows. map_ok row (with_fault (Table.get rows namespace key));
  delete = λ namespace key rows. (ok tt, Table.delete rows namespace key);
  recent = λ namespace limit rows. ok (map row (Table.recent rows namespace limit));
}

pub session_entries-KeepsApart : (now : ℕ) → KeepsApart (session_entries now)
unfolding session_entries
session_entries-KeepsApart now = record {
  set_other = λ ns ns' k k' v w ne.
      ap (λ r. map_ok row (with_fault r))
        (set-delete-purge_lem w ns k v now ns' k' ns' (λ e _. ne e) ne).2;
  delete_other = λ ns ns' k k' w ne.
      ap (λ r. map_ok row (with_fault r))
        (set-delete-purge_lem w ns k "" now ns' k' ns' (λ e _. ne e) ne).4;
}

another : (s : String) → (t : String) × (s ≢ t)
another String.[] = ("a", λ e. cc)
another (String.◌∷◌ c s) = ("", λ e. cc)

pub session_entries-Written :
    (now : ℕ) (ns k v : String) (rows : List EntryRow) → Written (session_entries now) ns k v rows
unfolding session_entries row
session_entries-Written now ns k v rows =
    let (t, ne) = another ns in
    let kept = set-delete-purge_lem rows ns k v now t k t (λ e _. ne e) ne in
    record {
      row = row (entry_after rows ns k v now (lookup rows ns k));
      in_place = refl;
      of_key = refl;
      of_value = refl;
      answered = ap (λ r. map_ok row (with_fault r)) kept.0;
      read_back = ap (λ r. map_ok row (with_fault r)) kept.1;
    }
