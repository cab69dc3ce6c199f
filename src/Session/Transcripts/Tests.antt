-- ===== src/Session/Transcripts/Tests.antt =====
-- pkgs/host/session/src/event_log.rs: `migrate_transcripts` on a table of two namespaces.
use jan_klod.Common.{
  ℕ, ◌≡◌, refl, String, List, [], ◌∷◌, map, some, ok, str_eq, strip_prefix, parse_number,
  parse_digits, if◌then◌else◌,
}
use jan_klod.Json.{Codec, null, object, string, field, end}
use jan_klod.Session.Store.{
  Row, Store, session_rows, session_events, order_by_seq, insert_by_seq, append_event_at, next_row,
  last_digest, max_seq,
}
use jan_klod.Session.Entries.{
  EntryRow, recent, newest_first, sort_newest, insert_newest, list_namespaces, namespace_groups,
  add_to_group, sort_groups, insert_group,
}
use jan_klod.Session.Transcripts.{
  parse_u64, has_slash, numbered, insert_turn, sort_turns, turns_of, migrate_user, migrate_answer,
  migrate_value, migrate_turns, migrate_session, migrate_all, migrate_transcripts,
}
use jan_klod.Session.EventLog.{encode, event_kind}
use jan_klod.Session.Transcripts.Keeps.{Migrated, migrate_transcripts-Migrated}
use jan_klod.Session.Transcripts.Twice.{migrate_transcripts-twice}

-- The JSON library reads "hello" as a turn, and prints every value alike.
abbrev codec : Codec
codec = record {
  from_str = λ s.
      if str_eq s "hello"
      then ok (object (field "user" (string "hi") (field "answer" (string "yes") end)))
      else ok null;
  to_string = λ v. "{}";
}

abbrev digest : String → String
digest s = s

abbrev turn : String → String → String → ℕ → EntryRow
turn namespace key value at = record {
  namespace = namespace;
  key = key;
  value = value;
  created_at = at;
  updated_at = at;
}

abbrev table : List EntryRow
table =
    turn "s" "turn-10" "" 8
    ∷ turn "s" "turn-2" "hello" 7
    ∷ turn "plan/s" "turn-1" "hello" 9
    ∷ turn "s" "steps" "hello" 9
    ∷ []

abbrev empty_store : Store
empty_store = record { events = [] }

parse_u64_run : parse_u64 "+10" ≡ some 10
unfolding parse_number parse_digits
parse_u64_run = refl

migrate_run :
    map (λ (r : Row). r.kind) (migrate_transcripts codec digest table empty_store).1.events
    ≡ "user-message" ∷ "done" ∷ []
unfolding migrate_transcripts migrate_all migrate_session migrate_turns migrate_value migrate_answer
    migrate_user turns_of sort_turns insert_turn numbered has_slash parse_number parse_digits
    strip_prefix list_namespaces namespace_groups add_to_group sort_groups insert_group recent
    newest_first sort_newest insert_newest session_events session_rows order_by_seq insert_by_seq
    append_event_at next_row last_digest max_seq encode event_kind
migrate_run = refl

migrate_transcripts-Migrated_example :
    Migrated codec digest "s" empty_store (migrate_transcripts codec digest table empty_store).1
migrate_transcripts-Migrated_example =
    migrate_transcripts-Migrated codec digest "s" empty_store table

migrate_transcripts-twice_example :
    (migrate_transcripts codec digest table
      (migrate_transcripts codec digest table empty_store).1).1
    ≡ (migrate_transcripts codec digest table empty_store).1
migrate_transcripts-twice_example = migrate_transcripts-twice codec digest table empty_store
