-- ===== src/Intercept.antt =====
-- pkgs/host/protocol/src/intercept.rs: the interceptor contract and the dispatcher. Interceptors,
-- providers and tools are traits, implemented by guests that are not part of the core: each is a
-- record of functions on the state `W` that all attached parts share.
pub mod Types
pub mod Dispatch
pub mod Passes
pub mod Halts
pub mod Tests
