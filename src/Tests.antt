-- ===== src/Tests.antt =====
-- Runs of the modelled code on small inputs, and the theorems applied to them.
pub mod ToolCalls
pub mod Grants
pub mod Store
pub mod Rounds
pub mod Gates
pub mod Usage
pub mod Endpoints
pub mod Runs
pub mod Statements
pub mod Recipes
pub mod Graphs
pub mod Calls
