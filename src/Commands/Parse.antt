-- ===== src/Commands/Parse.antt =====
-- parser/command-parser.cpp: one function for each command, on the buffer and the position behind
-- the command's name. A count is the number of arguments, none where the source's `int` is negative.
pub mod Keys
pub mod Lists
pub mod Sets
pub mod Geo
pub mod Admin
