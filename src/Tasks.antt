-- ===== src/Tasks.antt =====
-- The tasks of the agent: their data (app/models/task.py), the repository, the control requests and
-- the task service (app/services/), and the lifecycle endpoints (app/api/v1/tasks.py).
pub mod Model
pub mod Repository
pub mod Control
pub mod Service
pub mod Api
