-- ===== src/Ime.antt =====
-- The input method client: it grabs the keyboard while a text field is active, shows each key to the
-- engine, and forwards the keys that the engine leaves (src/wayland/ime.c).
pub mod Defs
pub mod Keys
pub mod Events
pub mod Release
pub mod Steps
pub mod Grab
mod Tests
