-- ===== src/Stream.antt =====
-- Streams: the ids of stream.h, the radix tree that keeps the entries, and stream.cpp.
pub mod Id
pub mod IdLaws
pub mod Radix
pub mod Entries
pub mod Growth
pub mod Text
mod Examples
