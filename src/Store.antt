-- ===== src/Store.antt =====
-- The store package: the rows, the state that one connection sees, and the data-access functions.
pub mod Models
pub mod World
pub mod Dao
