-- ===== src/Idle.antt =====
-- The idle client: watches that tell the shell when the user is idle, and the power of the outputs
-- (src/wayland/idle_notify.c).
pub mod Watches
pub mod Power
pub mod Live
pub mod Steps
pub mod Modes
mod Tests
