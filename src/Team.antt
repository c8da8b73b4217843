-- ===== src/Team.antt =====
-- app/agent/multi_agent.py: the supervisor's assignments, the sub-agents that run one after the
-- other, and the reviewer. What an LLM with its tools gives is an argument. A text is what `str`
-- makes of the value in the LLM's JSON; prompts, logs and traces are left out.
pub mod Assignments
use ai_agent_task_assistant.Common.{
  ℕ, zero, suc, String, Bool, true, false, not, ◌&&◌, Option, none, some, List, [], ◌∷◌, ◌++◌, map,
  take, keep_if, first_with, any, Text, codes, text_eq, lower, strip, if◌then◌else◌,
}
use ai_agent_task_assistant.Tools.Security.{
  category_system, category_sql, category_file, category_network,
}

abbrev pub mode_multi_agent : Text
mode_multi_agent = codes "multi_agent"

abbrev pub mode_single : Text
mode_single = codes "single"

abbrev pub default_agent_role : Text
default_agent_role = codes "general"

pub record AgentRole : Type 0 where
  pub role : Text
  pub name : String
  pub tool_categories : List String

abbrev pub agent_roles : List AgentRole
agent_roles =
    record {
      role = codes "research";
      name = "Research Agent";
      tool_categories = category_network ∷ [];
    }
    ∷ record {
      role = codes "data";
      name = "Data Agent";
      tool_categories = category_sql ∷ category_system ∷ [];
    }
    ∷ record {
      role = codes "coding";
      name = "Coding Agent";
      tool_categories = category_file ∷ category_system ∷ [];
    }
    ∷ record {
      role = codes "writing";
      name = "Writing Agent";
      tool_categories = category_system ∷ [];
    }
    ∷ record {
      role = codes "review";
      name = "Review Agent";
      tool_categories = category_system ∷ [];
    }
    ∷ []

abbrev pub generic_role : AgentRole
generic_role = record {
  role = default_agent_role;
  name = "General Agent";
  tool_categories = category_system ∷ category_sql ∷ category_file ∷ category_network ∷ [];
}

-- an item of the list `agents` in the supervisor's decision
pub record RawAssignment : Type 0 where
  pub role : Option Text
  pub objective : Option Text

pub record Decision : Type 0 where
  pub mode : Option Text
  pub agents : List RawAssignment

pub record Assignment : Type 0 where
  pub role : Text
  pub objective : Text

abbrev pub text_or : Option Text → Text → Text
text_or none default = default
text_or (some t) default = t

-- `role in AGENT_ROLES`
unfoldable pub is_agent_role : Text → Bool
unfolding text_eq
is_agent_role role = any (λ r. text_eq r.role role) agent_roles

unfoldable pub clean_role : Option Text → Text
clean_role role =
    let key = lower (strip (text_or role default_agent_role)) in
    if is_agent_role key then key else default_agent_role

abbrev pub cleaned : RawAssignment → Assignment
cleaned item = record { role = clean_role item.role; objective = strip (text_or item.objective []) }

-- `[a for a in clean if a["objective"]]`
unfoldable pub clean_assignments : List RawAssignment → List Assignment
clean_assignments items = keep_if (λ a. not (text_eq a.objective [])) (map cleaned items)

abbrev pub team_or_single : List Assignment → Text × List Assignment
team_or_single [] = (mode_single, [])
team_or_single (a ∷ assignments) = (mode_multi_agent, a ∷ assignments)

-- `SupervisorNode.run`: the mode and the assignments; `none` is a failed call
unfoldable pub supervise : Option Decision → Text × List Assignment
supervise none = (mode_single, [])
supervise (some decision) =
    if text_eq (lower (strip (text_or decision.mode mode_single))) mode_multi_agent
    then team_or_single (clean_assignments decision.agents)
    else (mode_single, [])

-- how the work of one sub-agent ends
pub data Work : Type 0 where
  answers : Text → Work
  times_out : Work
  fails : Text → Work
  stops : Work  -- an exhausted budget, or a pause for an approval

pub data AgentError : Type 0 where
  timed_out : AgentError
  raised : Text → AgentError

pub record AgentResult : Type 0 where
  pub role : Text
  pub agent_name : String
  pub objective : Text
  pub result : Option Text
  pub error : Option AgentError

abbrev named : Option AgentRole → AgentRole
named none = generic_role
named (some r) = r

-- `AGENT_ROLES.get(role, GENERIC_ROLE)`
unfoldable pub agent_of : Text → AgentRole
unfolding text_eq
agent_of role = named (first_with (λ r. text_eq r.role role) agent_roles)

abbrev pub made_by : Assignment → Option Text → Option AgentError → AgentResult
made_by a result error = record {
  role = a.role;
  agent_name = (agent_of a.role).name;
  objective = a.objective;
  result = result;
  error = error;
}

-- the result of one sub-agent; `none` stops the node
abbrev pub finished : Assignment → Work → Option AgentResult
finished a (answers t) = some (made_by a (some t) none)
finished a times_out = some (made_by a none (some timed_out))
finished a (fails t) = some (made_by a none (some (raised t)))
finished a stops = none

module _ (work : AgentRole → Assignment → List AgentResult → Work) where
  -- the loop over the assignments, with the results so far
  run_each : List AgentResult → List Assignment → Option (List AgentResult)
  run_each done [] = some done
  run_each done (a ∷ assignments) = elim (finished a (work (agent_of a.role) a done)) [
    | none ↦ none
    | some r ↦ run_each (done ++ (r ∷ [])) assignments
  ]

  -- `SubAgentsNode.run`
  unfoldable pub run_agents : ℕ → List Assignment → Option (List AgentResult)
  unfolding run_each
  run_agents max_steps assignments = run_each [] (take max_steps assignments)
