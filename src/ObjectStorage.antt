-- ===== src/ObjectStorage.antt =====
-- object_storage.rs: the options of object stores, and which store a location gets.
pub mod Options
pub mod Settings
pub mod Stores
pub mod Guards
pub mod Sessions
pub mod Register
pub mod Samples
mod Tests
