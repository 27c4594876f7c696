-- ===== src/Data.antt =====
-- The containers of the standard library that the program uses.
pub mod Ord
pub mod Map
pub mod Sort
pub mod Bytes
pub mod Perm
pub mod Entries
pub mod Parse
pub mod Int
pub mod Sublist
pub mod BigEndian
pub mod Rebuild
pub mod Set
