-- ===== src/Panics.antt =====
-- Which calls of a program panic.
pub mod Making
pub mod Giving
pub mod Speaking
pub mod Using
