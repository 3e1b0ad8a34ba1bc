-- ===== src/Filter.antt =====
-- pyarrow_filter_expression.rs and ibis_filter_expression.rs: pushed-down filters, translated from
-- DataFusion's expressions to objects of the two Python libraries.
pub mod Python
pub mod PyArrow
pub mod Ibis
pub mod Pushdown
pub mod Samples
mod Tests
