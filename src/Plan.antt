-- ===== src/Plan.antt =====
-- pkgs/extensions/tool-plan: the plan that a model keeps for a task.
pub mod Steps
pub mod Tool
pub mod Ids
pub mod Keeps
pub mod Tests
