-- ===== src/Guest/Tests.antt =====
-- Runs of pkgs/host/wasm/src/guest_storage.rs over the table of the session store.
use jan_klod.Common.{◌≡◌, refl, [], List, err}
use jan_klod.Session.Entries.{EntryRow}
use jan_klod.Common.{split_once}
use jan_klod.Guest.{StorageFault, Entries, durable, GuestStorage, per_session, bind_session, scope}
use jan_klod.Guest.Calls.{set, get, delete}
use jan_klod.Guest.Apart.{
  Tenant, component, in_session, storage_of, AreApart, owners_differ, set-delete-AreApart,
}
use jan_klod.Guest.Reads.{store, Served, set-get}
use jan_klod.Guest.Table.{session_entries, session_entries-KeepsApart, session_entries-Written}

abbrev table : Entries (List EntryRow)
table = session_entries 7

abbrev plan_tool : Tenant
plan_tool = component "tool-plan"

abbrev gate : Tenant
gate = in_session "interceptor-permission" "s1"

plan_tool-AreApart-gate : AreApart plan_tool gate
unfolding split_once
plan_tool-AreApart-gate = owners_differ plan_tool gate refl refl (λ e. cc)

set-delete-AreApart_example :
    (get
        (storage_of table gate)
        "standing"
        "shell"
        (set (storage_of table plan_tool) "s/s1/standing" "shell" "allow" []).1.1
      ≡ get (storage_of table gate) "standing" "shell" [])
    × (get
          (storage_of table gate)
          "standing"
          "shell"
          (delete (storage_of table plan_tool) "s/s1/standing" "shell" []).1.1
        ≡ get (storage_of table gate) "standing" "shell" [])
set-delete-AreApart_example =
    set-delete-AreApart table (session_entries-KeepsApart 7) plan_tool gate plan_tool-AreApart-gate
      "s/s1/standing" "shell" "allow" "standing" "shell" []

abbrev gate_storage : GuestStorage (List EntryRow)
gate_storage = storage_of table gate

set-get_example :
    Served gate_storage "standing" "shell" "allow" 5 [] (scope gate_storage "standing")
unfolding bind_session per_session
set-get_example =
    set-get gate_storage "standing" "shell" "allow" 5 []
      (store table "interceptor-permission" (session_entries-Written 7))

-- A storage per session that no session is bound to serves nothing.
unbound_run :
    scope (per_session (durable table "interceptor-permission")) "standing"
    ≡ err StorageFault.backend
unfolding scope per_session
unbound_run = refl
