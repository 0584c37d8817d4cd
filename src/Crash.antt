-- ===== src/Crash.antt =====
-- The crash handler: the program that the kernel starts for a core dump, which keeps a report and
-- perhaps the core under a spool directory of the user (src/services/crash-handler/main.c).
pub mod Text
pub mod Config
pub mod Spool
pub mod Files
pub mod Arguments
pub mod Main
mod Tests
