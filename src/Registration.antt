-- ===== src/Registration.antt =====
-- context.rs: the tables that are registered in a session, from a Python reader and from files.
pub mod Catalogs
pub mod Reader
pub mod Files
pub mod Batches
pub mod Provider
mod Tests
