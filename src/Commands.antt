-- ===== src/Commands.antt =====
-- The commands: parser/command.h and parser/command-parser.cpp.
pub mod Names
pub mod Doubles
pub mod Geohash
pub mod Command
pub mod Print
pub mod Read
pub mod Parse
pub mod Dispatch
pub mod Codec
pub mod Termination
