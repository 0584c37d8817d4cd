-- ===== src/Lock.antt =====
-- The session locker (src/lockscreen): it covers each output, reads the keyboard, authenticates, and
-- unlocks the session.
pub mod Defs
pub mod Render
pub mod Auth
pub mod Input
pub mod Events
pub mod Drawing
pub mod Unlock
pub mod Quiet
pub mod Grants
pub mod Lines
pub mod Typing
pub mod Cover
pub mod Surfaces
pub mod Sealed
pub mod Covered
pub mod Pam
pub mod Fprint
pub mod Errors
pub mod Stopped
mod Tests
