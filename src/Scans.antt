-- ===== src/Scans.antt =====
-- dataset_exec.rs, ibis_table_exec.rs and py_record_batch_provider.rs: the readers that the crate
-- hands to the bridge. Each opens its Python iterator at the first pull.
pub mod Reader
pub mod Batches
pub mod Python
pub mod Dataset
pub mod ArrowStream
pub mod Ibis
mod Tests
