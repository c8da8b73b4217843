-- ===== src/Tools.antt =====
-- The tool runtime, app/tools/: schemas, permissions, the role matrix, risk levels, structured
-- errors and the execution pipeline.
pub mod Schema
pub mod Permissions
pub mod Security
pub mod Sql
pub mod Risk
pub mod Failure
pub mod Executor
pub mod Registry
