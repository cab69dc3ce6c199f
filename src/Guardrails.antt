-- ===== src/Guardrails.antt =====
-- pkgs/extensions/interceptor-guardrails: the operator's content rules on tool calls and on text.
pub mod Rules
pub mod Component
pub mod Whole
pub mod Fires
pub mod Redacts
pub mod Context
pub mod Closed
pub mod Tests
