-- ===== src/Session/Store/Tests.antt =====
-- Runs of pkgs/host/session/src/store.rs: a log of two sessions, appended to, forked and read in part.
use jan_klod.Common.{
  ℕ, ◌≡◌, ◌≢◌, ◌↔◌, refl, sym, subst, String, [], ◌∷◌, ◌++◌, map, Option, none, some, inr, arith,
  ok, length, decimal,
}
use jan_klod.Session.EventLog.{kind_user_message}
use jan_klod.Session.Projection.{last_turns}
use jan_klod.Session.Store.{
  Row, Store, insert_by_seq, order_by_seq, session_rows, session_events, recent_turns, renumbered,
  forked_rows, fork_events, intact, broken, compute_event_digest, append_event_at, verify_chain,
  verify_rows, check_first, check_rows, check_digest,
}
use jan_klod.Session.Store.Rows.{IsIncreasing}
use jan_klod.Session.Store.Chain.{Linked, verify_chain-Linked, append_event_at-verify_chain}
use jan_klod.Session.Store.Digests.{migrate_digests}
use jan_klod.Session.Store.Migrated.{Opens, migrate_digests-verify_chain}
use jan_klod.Session.Store.Fork.{content, CountsFrom, fork_events-content, fork_events-breaks_chain}
use jan_klod.Session.Store.Recent.{OpensWithUser, recent_turns-last_turns}

-- Stands for SHA-256.
abbrev digest : String → String
digest s = s

abbrev row : String → ℕ → String → String → Option String → Row
row session seq kind payload prev = record {
  session = session;
  seq = seq;
  ts = 7;
  kind = kind;
  payload = payload;
  prev_digest = prev;
}

abbrev first_row : Row
first_row = row "s" 1 kind_user_message "p" none

abbrev second_row : Row
second_row = row "s" 2 "done" "q" (some "1/7/user-message/p")

abbrev store : Store
store = record { events = second_row ∷ row "other" 1 "done" "x" none ∷ first_row ∷ [] }

session_rows_run : session_rows store "s" ≡ first_row ∷ second_row ∷ []
unfolding session_rows order_by_seq insert_by_seq
session_rows_run = refl

verify_chain_run : verify_chain digest store "s" ≡ ok intact
unfolding verify_chain verify_rows session_rows order_by_seq insert_by_seq check_first check_rows
    check_digest compute_event_digest decimal
verify_chain_run = refl

verify_chain-Linked_example :
    (verify_chain digest store "s" ≡ ok intact)
    ↔ ((session_rows store "s" ≢ []) × Linked digest (session_rows store "s"))
verify_chain-Linked_example = verify_chain-Linked digest store "s"

abbrev appended : Store
appended = (append_event_at digest store "s" "warning" "w" 8).1

append_event_at-verify_chain_example : verify_chain digest appended "s" ≡ ok intact
append_event_at-verify_chain_example =
    append_event_at-verify_chain digest store "s" "warning" "w" 8 (inr verify_chain_run)

abbrev forked : Store
forked = record {
  events = store.events ++ row "t" 1 kind_user_message "p" none ∷ row "t" 2 "done" "q" none ∷ [];
}

fork_events_run : fork_events store "s" 9 "t" ≡ ok (2, forked)
unfolding fork_events session_events session_rows order_by_seq insert_by_seq forked_rows renumbered
fork_events_run = refl

fork_events-content_example :
    (map content (session_rows forked "t") ≡ map content (first_row ∷ second_row ∷ []))
    × CountsFrom 1 (session_rows forked "t")
    × (2 ≡ length (session_rows forked "t"))
unfolding session_rows order_by_seq insert_by_seq
fork_events-content_example = fork_events-content store forked "s" "t" 9 2 fork_events_run

fork_events-breaks_chain_example :
    (kind : String) × (verify_chain digest forked "t"
      ≡ ok (broken 2 kind "non-first event missing prev_digest"))
fork_events-breaks_chain_example =
    fork_events-breaks_chain digest store forked "s" "t" 9 2 fork_events_run (omega arith)

recent_turns-last_turns_example : recent_turns store "s" 1 ≡ last_turns (session_events store "s") 1
recent_turns-last_turns_example =
    recent_turns-last_turns store "s" 1
      (subst IsIncreasing (sym session_rows_run) ((omega arith, tt), (tt, tt)))
      (subst OpensWithUser (sym session_rows_run) refl)

abbrev loaded_row : Row
loaded_row = row "u" 1 "extension-loaded" "e" none

abbrev asked_row : Row
asked_row = row "u" 2 kind_user_message "p" none

abbrev loaded : Store
loaded = record { events = loaded_row ∷ asked_row ∷ [] }

-- A log of before the chain, with a wrong digest in its second row.
abbrev old_store : Store
old_store = record { events = row "s" 2 "done" "q" (some "?") ∷ first_row ∷ [] }

old_rows_run : session_rows old_store "s" ≡ first_row ∷ row "s" 2 "done" "q" (some "?") ∷ []
unfolding session_rows order_by_seq insert_by_seq
old_rows_run = refl

migrate_digests-verify_chain_example :
    (verify_chain digest (migrate_digests digest old_store).1 "s" ≡ ok intact)
    × (session_events (migrate_digests digest old_store).1 "s" ≡ session_events old_store "s")
    × (session_rows (migrate_digests digest (migrate_digests digest old_store).1).1 "s"
        ≡ session_rows (migrate_digests digest old_store).1 "s")
migrate_digests-verify_chain_example =
    migrate_digests-verify_chain digest old_store "s"
      (subst IsIncreasing (sym old_rows_run) ((omega arith, tt), (tt, tt)))
      (subst Opens (sym old_rows_run) refl)
