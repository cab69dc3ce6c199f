-- ===== src/Session/Store/Migrated.antt =====
-- pkgs/host/session/src/store.rs: what `migrate_digests` does to the log of a session.
use jan_klod.Common.{◌≡◌, ◌≢◌, refl, sym, subst, ap, ◌∙◌, String, List, [], ◌∷◌, map, none, ok}
use jan_klod.Session.Store.{Row, Store, logged, session_rows, session_events, intact, verify_chain}
use jan_klod.Session.Store.Rows.{IsIncreasing}
use jan_klod.Session.Store.Chain.{Linked, verify_chain-Linked}
use jan_klod.Session.Store.Relinks.{
  relinked, relink, Follows-relinked, relink-relink, IsIncreasing-relink,
}
use jan_klod.Session.Store.MigratedRows.{migrate_digests-rows}
use jan_klod.Session.Store.Digests.{migrate_digests}

-- The log has a first row, which holds no digest.
abbrev pub Opens : List Row → Type 0
Opens [] = ⊥
Opens (r ∷ rs) = r.prev_digest ≡ none

module _ (sha256 : String → String) where
  relink-Linked :
      (rows : List Row)
      → Opens rows
      → (relink sha256 rows ≢ []) × Linked sha256 (relink sha256 rows)
  relink-Linked [] h = absurd h
  relink-Linked (r ∷ rs) h = (λ e. cc, (h, Follows-relinked sha256 r r rs refl))

  relinked-logged :
      (prev : Row) (rs : List Row) → map logged (relinked sha256 prev rs) ≡ map logged rs
  relinked-logged prev [] = refl
  relinked-logged prev (r ∷ rs) = ap (λ l. logged r ∷ l) (relinked-logged r rs)

  relink-logged : (rows : List Row) → map logged (relink sha256 rows) ≡ map logged rows
  relink-logged [] = refl
  relink-logged (r ∷ rs) = ap (λ l. logged r ∷ l) (relinked-logged r rs)

  -- The migration makes a log that opens without a digest a chain that `verify_chain` finds intact,
  -- whatever digests its rows held; it changes no event; and migrating again changes no row. The
  -- numbers of a session's rows differ, as they do under the table's primary key.
  pub migrate_digests-verify_chain :
      (store : Store) (s : String)
      → IsIncreasing (session_rows store s)
      → Opens (session_rows store s)
      → (verify_chain sha256 (migrate_digests sha256 store).1 s ≡ ok intact)
        × (session_events (migrate_digests sha256 store).1 s ≡ session_events store s)
        × (session_rows (migrate_digests sha256 (migrate_digests sha256 store).1).1 s
            ≡ session_rows (migrate_digests sha256 store).1 s)
  migrate_digests-verify_chain store s up opens =
      let rows = migrate_digests-rows sha256 s store up in
      let up2 =
        subst IsIncreasing (sym rows) (IsIncreasing-relink sha256 (session_rows store s) up) in
      (
        (verify_chain-Linked sha256 (migrate_digests sha256 store).1 s).1 (
            subst (λ l. (l ≢ []) × Linked sha256 l) (sym rows)
              (relink-Linked (session_rows store s) opens)),
        unfold session_events in (ap (map logged) rows ∙ relink-logged (session_rows store s)),
        migrate_digests-rows sha256 s (migrate_digests sha256 store).1 up2
            ∙ ap (relink sha256) rows
            ∙ relink-relink sha256 (session_rows store s)
            ∙ sym rows,
      )
