-- ===== src/Lib.antt =====
-- A model of the AI agent task assistant, a service that takes goals from users, plans them with a
-- language model, runs tools under permissions and approvals, and reports the results.
--
-- The parts and how they interact. An endpoint (app/api/v1/tasks.py) reads the caller's identity,
-- checks the access to the task, changes the stored task through the task service
-- (app/services/task_service.py) and the registers of control requests
-- (app/services/task_control.py), and hands the task to the worker as a message on the queue
-- (app/queue/). The worker (app/worker.py) takes the messages one by one and has the agent service
-- (app/services/agent_service.py) run them: it starts the graph of nodes (app/agent/workflow.py), or
-- resumes it with a decision, writes the output of each node into the task, and stops at a node's
-- boundary on a request to pause or to cancel, or where the graph waits for an approval. In the graph
-- a supervisor chooses between a team of sub-agents (app/agent/multi_agent.py) and a plan that is
-- executed, judged and replanned. The calls of tools that the LLM asks for pass the policy, the check
-- of their parameters (app/agent/requirements.py) and the approval gate (app/agent/approval.py), and
-- then go through the executor (app/tools/executor.py), which checks the parameters, the role and the
-- grants, and runs the tool with retries.
--
-- Where each part is modelled:
--   Tools/Schema, Tools/Failure   app/tools/schema.py, app/tools/base.py, app/tools/errors.py
--   Tools/Permissions             app/tools/permissions.py (_match_grant, granted_allows)
--   Tools/Security                app/tools/security.py (ToolContext, is_role_allowed)
--   Tools/Risk                    app/tools/risk.py (tool_risk_level, requires_approval)
--   Tools/Executor                app/tools/executor.py: Executor holds the retry loop
--                                 (_execute_with_policy), Executor/Pipeline the steps of execute
--   Tools/Sql                     app/tools/sql_query.py (_validate, _validate_ast)
--   Tools/Registry                app/tools/registry.py
--   Schedule                      app/agent/executor_node.py (ExecutorNode.run, _get_parallel_batch,
--                                 _run_parallel_batch)
--   Workflow                      app/agent/planner_node.py, app/agent/reflection_node.py,
--                                 app/agent/state.py and the run methods of the other nodes
--   Workflow/Graph                app/agent/workflow.py (AgentWorkflow.build and its routes)
--   Team                          app/agent/multi_agent.py (SupervisorNode, SubAgentsNode)
--   Calling/Policy, Calling/Loop  app/agent/executor_node.py (ToolExecutionPolicy,
--                                 run_tool_calls_loop)
--   Calling/Invoking              app/agent/executor_node.py (_invoke_tool, _invoke_with_retry)
--   Calling/Requirements          app/agent/requirements.py
--   Agent/Events, Agent/Service   app/services/agent_service.py: Events follows the stream of events
--                                 (_handle_node_event), Service holds run_task and resume_approval
--   Agent/Worker                  app/worker.py (QueueWorker)
--   Gate                          app/agent/approval.py (HumanApprovalGate)
--   Budget, Budget/Usage          app/llm/budget.py (TaskBudget, budgeted_ainvoke)
--   Queue, Queue/Message          app/queue/memory_queue.py and app/queue/base.py
--   Tasks/Model                   app/models/task.py, app/models/plan.py
--   Tasks/Control                 app/services/task_control.py
--   Tasks/Repository              app/services/task_repository.py (InMemoryTaskRepository)
--   Tasks/Service                 app/services/task_service.py: Sync holds the sync_ methods, Approval
--                                 and Retry the methods on approvals and on retries
--   Templates                     app/services/template_service.py, app/models/template.py
--   Tasks/Api                     app/api/v1/tasks.py and app/api/v1/agent.py, with what they
--                                 call of app/api/auth.py,
--                                 app/api/deps.py and app/api/errors.py: Handlers and Approvals hold
--                                 the endpoints
-- The other modules below these hold proofs, Common the shared types and lemmas, and Tests runs on
-- small inputs.
--
-- How state and operations correspond to the code. The repository is an association list of tasks, a
-- Python set the list of its members, and the Server of Tasks/Api the singletons of app/api/deps.py.
-- An operation on them is a function that returns the new state beside its answer; a handler returns
-- its reply, or the exception, together with the state at that point, so what an endpoint leaves behind
-- after an exception is visible. What the code awaits from elsewhere is an argument: the times, the
-- new identifiers, the runs of a tool, the answer of the approval gate, the cancellation flag at each
-- attempt, and Python's str on a value that is no text. The texts that the code takes apart are lists
-- of code points, and lower and upper are Python's on ASCII, but for the checks of SQL, which take
-- them as arguments; strip takes off every white space.
--
-- A run of the agent is a function of what LangGraph yields: the stream of events, with the control
-- requests and the changes of other callers that arrive before each node's boundary, is an argument,
-- as are the checkpoint and the memory. A run of the graph itself is a sequence of steps, and what the
-- LLM and the tools answer in each is an argument.
--
-- Bounds and fuel. Recursion is structural everywhere but in the runs of the graph, which take the
-- number of their steps; Workflow/Graph/Measure has a measure of each node from which a number that is
-- enough follows. The retry loops count down from max_retries + 1, as range does in the source.
-- Numbers are unbounded, as Python's are, and those of the program are not negative; floats appear as
-- thousandths (scores), milliseconds (times) or a fraction's two parts (progress); costs are in
-- millionths of a micro-dollar.
--
-- What is not modelled, and why: the SQLAlchemy repository, the Redis queue, the memory and vector
-- stores, the language model providers and the individual tools but for the checks of sql_query,
-- which are calls of libraries and services; the prompts, settings, logging, tracing, health checks,
-- migrations and the front end; and the signals and the asyncio tasks around the worker.
pub mod Agent
pub mod Budget
pub mod Calling
pub mod Common
pub mod Gate
pub mod Queue
pub mod Schedule
pub mod Tasks
pub mod Team
pub mod Templates
pub mod Tests
pub mod Tools
pub mod Workflow
