-- ===== src/Listpack.antt =====
-- listpack.h and listpack.cpp.
pub mod Number
pub mod Encoding
pub mod Backlen
pub mod Element
pub mod Memory
pub mod Header
pub mod Insert
pub mod Walk
pub mod Examples
