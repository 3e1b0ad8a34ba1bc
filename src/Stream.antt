-- ===== src/Stream.antt =====
-- utils.rs: the bridge from a blocking Python reader to an asynchronous stream of record batches.
pub mod Tokio
pub mod Schema
pub mod Credit
pub mod Lazy
pub mod Bridge
pub mod Host
pub mod Runtime
pub mod Consumer
