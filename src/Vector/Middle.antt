-- ===== src/Vector/Middle.antt =====
-- `vector_insert` and `vector_erase` on the list that a vector stands for.
pub mod Moves
pub mod Insert
pub mod Erase
