-- ===== src/Lists.antt =====
-- The list commands as clients of the listpack: db/LPOP/lpop_db.cpp (Pop) and
-- db/LRANGE/lrange_db.cpp (Range), on a key that holds a list.
pub mod Pop
pub mod Range
pub mod Laws
pub mod RangeLaws
mod Examples
