-- ===== src/DataType.antt =====
-- common/data_type.rs: the maps between Arrow, Python and SQL types.
pub mod Types
pub mod Arrow
pub mod Sql
pub mod Names
pub mod Laws
mod Tests
