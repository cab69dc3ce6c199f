-- ===== src/Permission.antt =====
-- pkgs/extensions/interceptor-permission: the default gate of tool calls.
pub mod Paths
pub mod Rules
pub mod Wording
pub mod Gate
