-- ===== src/Witnesses.antt =====
-- The theorems at concrete inputs.
pub mod Toy
pub mod Containers
mod Memory
mod Library
mod Sequences
mod Families
mod Delivery
mod Copy
mod Polling
mod Frames
mod Messages
mod Certificates
mod Meta
mod Calls
