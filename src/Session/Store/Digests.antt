-- ===== src/Session/Store/Digests.antt =====
-- pkgs/host/session/src/store.rs: `migrate_digests`, which fills in the digests of a store that was
-- written before the log was a chain. A store that it opens anew has no row with a digest.
use jan_klod.Common.{ℕ, String, ◌&&◌, List, [], ◌∷◌, map, some, str_eq, ◌==◌, length, if◌then◌else◌}
use jan_klod.Session.Store.{Row, Store, session_rows, compute_event_digest}
use jan_klod.Session.Entries.{text_before}

-- `SELECT DISTINCT session .. ORDER BY session`.
unfoldable pub insert_session : String → List String → List String
insert_session name [] = name ∷ []
insert_session name (x ∷ xs) =
    if str_eq name x
    then x ∷ xs
    else if text_before name x
    then name ∷ (x ∷ xs)
    else x ∷ insert_session name xs

unfoldable pub distinct_sessions : List Row → List String
distinct_sessions [] = []
distinct_sessions (r ∷ rs) = insert_session r.session (distinct_sessions rs)

-- `UPDATE events SET prev_digest = ?1 WHERE session = ?2 AND seq = ?3`.
abbrev pub set_prev : String → String → ℕ → Row → Row
set_prev digest session seq r =
    if str_eq r.session session && r.seq == seq then record r { prev_digest = some digest } else r

unfoldable pub update_digest : String → String → ℕ → List Row → List Row
update_digest digest session seq = map (set_prev digest session seq)

module _ (sha256 : String → String) where
  -- The loop over a session's events, as they were read: each but the first is given the digest of
  -- the one before it, `prev`.
  unfoldable pub migrate_events : String → Row → List Row → List Row → List Row
  migrate_events session prev [] table = table
  migrate_events session prev (r ∷ rs) table =
      migrate_events session r rs
        (update_digest (compute_event_digest sha256 prev) session r.seq table)

  unfoldable pub migrate_rows : String → List Row → List Row → List Row
  migrate_rows session [] table = table
  migrate_rows session (first ∷ rs) table = migrate_events session first rs table

  unfoldable pub migrate_session : String → List Row → List Row
  migrate_session session table =
      migrate_rows session (session_rows (record { events = table }) session) table

  unfoldable pub migrate_sessions : List String → List Row → List Row
  migrate_sessions [] table = table
  migrate_sessions (session ∷ sessions) table =
      migrate_sessions sessions (migrate_session session table)

  -- The store after, with the number of sessions.
  unfoldable pub migrate_digests : Store → ℕ × Store
  migrate_digests store =
      let sessions = distinct_sessions store.events in
      (length sessions, record { events = migrate_sessions sessions store.events })
