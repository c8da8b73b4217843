-- ===== src/Calling.antt =====
-- The calls of tools that an LLM asks for: the check of their parameters (app/agent/requirements.py)
-- and the loop over them (app/agent/executor_node.py).
pub mod Requirements
pub mod Policy
pub mod Loop
pub mod Invoking
pub mod Permitting
pub mod Guarded
pub mod Answered
