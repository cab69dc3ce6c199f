-- ===== src/Session/Store.antt =====
-- pkgs/host/session/src/store.rs: the `events` table of the session store. A table is the list of its
-- rows in the order of their insertion, and each SQL statement is the function on that list that it
-- states. SQLite's own failures are not modelled; a stored number is within an `i64`.
pub mod Rows
pub mod Digests
pub mod Updates
pub mod Relinks
pub mod Migrated
pub mod MigratedRows
pub mod Chain
pub mod Fork
pub mod Cuts
pub mod Recent
pub mod Tests
use jan_klod.Common.{
  ℕ, ◌+◌, ◌-◌, String, Bool, true, false, List, [], ◌∷◌, ◌++◌, map, Option, none, some, str_eq,
  format, decimal, min, max, leb, retain, last, length, take, drop, ◌==◌, not, Result, ok, err,
  if◌then◌else◌,
}
use mathlib.Core.Option
use jan_klod.Session.EventLog.{kind_user_message}

abbrev pub i64_max : ℕ
i64_max = 9223372036854775807

-- A row of the table `events`.
pub record Row : Type 0 where
  pub session : String
  pub seq : ℕ
  pub ts : ℕ
  pub kind : String
  pub payload : String
  pub prev_digest : Option String

pub record LoggedEvent : Type 0 where
  pub session : String
  pub seq : ℕ
  pub ts : ℕ
  pub kind : String
  pub payload : String

pub record Store : Type 0 where
  pub events : List Row

pub data StoreError : Type 0 where
  not_found : StoreError
  backend : String → StoreError

abbrev pub logged : Row → LoggedEvent
logged r = record {
  session = r.session;
  seq = r.seq;
  ts = r.ts;
  kind = r.kind;
  payload = r.payload;
}

-- `ORDER BY seq`.
unfoldable pub insert_by_seq : Row → List Row → List Row
insert_by_seq r [] = r ∷ []
insert_by_seq r (x ∷ xs) = if leb r.seq x.seq then r ∷ (x ∷ xs) else x ∷ insert_by_seq r xs

unfoldable pub order_by_seq : List Row → List Row
order_by_seq [] = []
order_by_seq (r ∷ rs) = insert_by_seq r (order_by_seq rs)

-- `WHERE session = ?1`.
abbrev pub of_session : String → List Row → List Row
of_session session = retain (λ r. str_eq r.session session)

-- `COALESCE(MAX(seq), 0)`.
unfoldable pub max_seq : List Row → ℕ
max_seq [] = 0
max_seq (r ∷ rs) = max r.seq (max_seq rs)

-- `SELECT .. FROM events WHERE session = ?1 ORDER BY seq`.
unfoldable pub session_rows : Store → String → List Row
session_rows store session = order_by_seq (of_session session store.events)

unfoldable pub session_events : Store → String → List LoggedEvent
session_events store session = map logged (session_rows store session)

-- The first `n` of a list from its end, in the list's order (`ORDER BY seq DESC LIMIT n`).
abbrev pub take_last : ℕ → List Row → List Row
take_last n rs = drop (length rs - n) rs

-- `COALESCE(MIN(seq), 0)`, of rows in the order of `seq`.
abbrev pub first_seq : List Row → ℕ
first_seq [] = 0
first_seq (r ∷ rs) = r.seq

abbrev pub is_user_message : Row → Bool
is_user_message r = str_eq r.kind kind_user_message

unfoldable pub recent_rows : Store → String → ℕ → List Row
recent_rows store session turns =
    let rows = session_rows store session in
    let start = first_seq (take_last turns (retain is_user_message rows)) in
    retain (λ r. leb start r.seq) rows

unfoldable pub recent_turns : Store → String → ℕ → List LoggedEvent
recent_turns store session turns =
    if turns == 0 then [] else map logged (recent_rows store session turns)

unfoldable pub purge_session_events : Store → String → Store
purge_session_events store session = record {
  events = retain (λ r. not (str_eq r.session session)) store.events;
}

-- A copied row: no `prev_digest` is inserted with it.
abbrev pub copied : String → ℕ → Row → Row
copied into n r = record r { session = into; seq = n; prev_digest = none }

-- `ROW_NUMBER() OVER (ORDER BY seq)`, of rows in that order.
unfoldable pub renumbered : String → ℕ → List Row → List Row
renumbered into n [] = []
renumbered into n (r ∷ rs) = copied into n r ∷ renumbered into (n + 1) rs

unfoldable pub forked_rows : Store → String → ℕ → String → List Row
forked_rows store session at_seq into =
    renumbered into 1 (retain (λ r. leb r.seq (min at_seq i64_max)) (session_rows store session))

abbrev pub is_nil : {A : Type 0} → List A → Bool
is_nil [] = true
is_nil (x ∷ xs) = false

-- The store after a fork, with the number of rows that it copied.
unfoldable pub fork_events : Store → String → ℕ → String → Result (ℕ × Store) StoreError
fork_events store session at_seq into =
    if is_nil (session_events store into)
    then ok (
      length (forked_rows store session at_seq into),
      record { events = store.events ++ forked_rows store session at_seq into },
    )
    else err (
        backend (format ("`" ∷ into ∷ "` already has events; a fork needs an unused session" ∷ [])))

pub data ChainStatus : Type 0 where
  intact : ChainStatus
  broken : ℕ → String → String → ChainStatus

pub data VerifyError : Type 0 where
  not_found : String → VerifyError
  backend : String → VerifyError

-- SHA-256, in hexadecimal, is the `sha2` crate's.
module _ (sha256 : String → String) where
  unfoldable pub compute_event_digest : Row → String
  compute_event_digest r =
      sha256 (format (decimal r.seq ∷ "/" ∷ decimal r.ts ∷ "/" ∷ r.kind ∷ "/" ∷ r.payload ∷ []))

  -- The digest of a session's last row, `None` if it has none.
  unfoldable pub last_digest : List Row → Option String
  last_digest rows = Option.map compute_event_digest (last rows)

  unfoldable pub next_row : Store → String → String → String → ℕ → Row
  next_row store session kind payload ts = record {
    session = session;
    seq = max_seq (of_session session store.events) + 1;
    ts = min ts i64_max;
    kind = kind;
    payload = payload;
    prev_digest = last_digest (session_rows store session);
  }

  -- The event is returned with the time that was asked for.
  unfoldable pub append_event_at : Store → String → String → String → ℕ → LoggedEvent × Store
  append_event_at store session kind payload ts =
      let row = next_row store session kind payload ts in
      (record (logged row) { ts = ts }, record { events = store.events ++ row ∷ [] })

  abbrev pub mismatch : String → String → String
  mismatch computed stored =
      format ("prev_digest mismatch: expected " ∷ computed ∷ ", got " ∷ stored ∷ [])

  -- A row's stored digest against the one computed from the row before it.
  unfoldable pub check_digest : Row → Row → ChainStatus → Option String → ChainStatus
  check_digest prev r rest none = broken r.seq r.kind "non-first event missing prev_digest"
  check_digest prev r rest (some stored) =
      if str_eq stored (compute_event_digest prev)
      then rest
      else broken r.seq r.kind (mismatch (compute_event_digest prev) stored)

  unfoldable pub check_rows : Row → List Row → ChainStatus
  check_rows prev [] = intact
  check_rows prev (r ∷ rs) = check_digest prev r (check_rows r rs) r.prev_digest

  unfoldable pub check_first : Row → ChainStatus → Option String → ChainStatus
  check_first r rest none = rest
  check_first r rest (some d) = broken r.seq r.kind "first event should have NULL prev_digest"

  unfoldable pub verify_rows : String → List Row → Result ChainStatus VerifyError
  verify_rows session [] = err (not_found session)
  verify_rows session (r ∷ rs) = ok (check_first r (check_rows r rs) r.prev_digest)

  unfoldable pub verify_chain : Store → String → Result ChainStatus VerifyError
  verify_chain store session = verify_rows session (session_rows store session)
