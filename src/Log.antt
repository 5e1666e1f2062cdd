-- ===== src/Log.antt =====
-- common/src/diagnostic/logging/log_infra.c: the ring buffer of the log. The bytes of a buffer are
-- a function of their index; what lies past the ring's 4096 bytes is part of it, so a store out
-- of the ring shows.
pub mod Memory
pub mod Entry
pub mod Dispatch
pub mod Flash
pub mod Queue
pub mod Levels
mod Tests
