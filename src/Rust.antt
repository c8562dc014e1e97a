-- ===== src/Rust.antt =====
-- What the crate uses of Rust's standard library. A `&str`, a `String` and a `&[u8]` are the list
-- of their bytes; that a text is UTF-8 is the predicate `IsText`.
pub mod Text
pub mod Slice
