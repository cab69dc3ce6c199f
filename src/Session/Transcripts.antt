-- ===== src/Session/Transcripts.antt =====
-- pkgs/host/session/src/event_log.rs: `migrate_transcripts`, which turns the transcripts of before the
-- log, kept in the table `entries`, into events. It reads that table and writes to the log.
pub mod Keeps
pub mod Twice
pub mod Tests
use jan_klod.Common.{
  ℕ, ◌+◌, ◌*◌, ◌-◌, String, Bool, true, false, not, ◌&&◌, ◌||◌, List, [], ◌∷◌, Option, none, some,
  leb, ◌==◌, filter_map, strip_prefix, parse_number, Result, ok, err, if◌then◌else◌,
}
use Prim.Native.Char.{Char, code}
use Prim.Native.String
use jan_klod.Json.{Codec, Value, str_field, ◌>>=◌}
use jan_klod.Turn.{Event, done}
use jan_klod.Session.EventLog.{kind_user_message, envelope, message_data, encode, u32_max}
use jan_klod.Session.Store.{Store, session_events, append_event_at, is_nil}
use jan_klod.Session.Entries.{Entry, EntryRow, recent, list_namespaces}

abbrev pub u64_max : ℕ
u64_max = 18446744073709551615

abbrev pub parse_u64 : String → Option ℕ
parse_u64 = parse_number u64_max

-- `contains('/')`.
unfoldable pub has_slash : String → Bool
has_slash String.[] = false
has_slash (String.◌∷◌ c s) = code c == 47 || has_slash s

pub record NumberedTurn : Type 0 where
  pub number : ℕ
  pub entry : Entry

unfoldable pub numbered : Entry → Option NumberedTurn
numbered entry = do
  suffix ← strip_prefix entry.key "turn-"
  number ← parse_u64 suffix
  some (record { number = number; entry = entry })

-- `sort_by_key`, which keeps the order of equal keys.
unfoldable pub insert_turn : NumberedTurn → List NumberedTurn → List NumberedTurn
insert_turn t [] = t ∷ []
insert_turn t (x ∷ xs) = if leb t.number x.number then t ∷ (x ∷ xs) else x ∷ insert_turn t xs

unfoldable pub sort_turns : List NumberedTurn → List NumberedTurn
sort_turns [] = []
sort_turns (t ∷ ts) = insert_turn t (sort_turns ts)

unfoldable pub turns_of : List EntryRow → String → List NumberedTurn
turns_of rows session = sort_turns (filter_map numbered (recent rows session u32_max))

module _ (codec : Codec) (sha256 : String → String) (session : String) where
  unfoldable pub migrate_user : Option String → ℕ → Store → Store
  migrate_user none ts store = store
  migrate_user (some user) ts store =
      (append_event_at sha256 store session kind_user_message (envelope codec (message_data user))
        ts).1

  unfoldable pub migrate_answer : Option String → ℕ → Store → Store
  migrate_answer none ts store = store
  migrate_answer (some answer) ts store =
      let (kind, payload) = encode codec (done answer false) in
      (append_event_at sha256 store session kind payload ts).1

  unfoldable pub migrate_value : Result Value String → ℕ → Store → Store
  migrate_value (err e) ts store = store
  migrate_value (ok turn) ts store =
      migrate_answer (str_field turn "answer") ts (migrate_user (str_field turn "user") ts store)

  unfoldable pub migrate_turns : List NumberedTurn → Store → Store
  migrate_turns [] store = store
  migrate_turns (t ∷ ts) store =
      migrate_turns ts (migrate_value (codec.from_str t.entry.value) t.entry.created_at store)

abbrev pub is_skipped : String → Store → Bool
is_skipped session store = has_slash session || not (is_nil (session_events store session))

module _ (codec : Codec) (sha256 : String → String) (rows : List EntryRow) where
  -- The body of the loop: a session that is skipped leaves the count and the store.
  unfoldable pub migrate_session : String → ℕ × Store → ℕ × Store
  migrate_session session (migrated, store) =
      if is_skipped session store || is_nil (turns_of rows session)
      then (migrated, store)
      else (migrated + 1, migrate_turns codec sha256 session (turns_of rows session) store)

  unfoldable pub migrate_all : List String → ℕ × Store → ℕ × Store
  migrate_all [] state = state
  migrate_all (session ∷ sessions) state = migrate_all sessions (migrate_session session state)

  unfoldable pub migrate_transcripts : Store → ℕ × Store
  migrate_transcripts store = migrate_all (list_namespaces rows) (0, store)
