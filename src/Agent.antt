-- ===== src/Agent.antt =====
-- The runs of the agent as the task service sees them: app/services/agent_service.py and
-- app/worker.py.
pub mod Events
pub mod Service
pub mod Worker
pub mod Identity
pub mod Stops
pub mod Waiting
pub mod Replanning
pub mod Ending
pub mod Outcome
pub mod Serving
