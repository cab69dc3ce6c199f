-- ===== src/Session.antt =====
-- pkgs/host/session: the event log of a session, its store and its projection to messages.
pub mod EventLog
pub mod Store
pub mod Entries
pub mod Transcripts
pub mod Persist
pub mod Projection
pub mod Tests
