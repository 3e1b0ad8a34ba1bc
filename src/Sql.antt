-- ===== src/Sql.antt =====
-- common/schema.rs: the schemas and tables that Python describes for a SQL planner.
pub mod Schema
mod Tests
