-- ===== src/Conductor.antt =====
-- pkgs/host/agent/src/conductor.rs: the loop of one turn.
pub mod Effects
pub mod Provider
pub mod Tools
pub mod Phases
pub mod Turns
pub mod Rules
pub mod Answers
pub mod Halts
pub mod Clearance
pub mod Fallback
pub mod Cost
pub mod Ending
pub mod Tests
