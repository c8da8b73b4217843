-- ===== src/Tools/Executor/Guarded.antt =====
-- What the pipeline of app/tools/executor.py has checked when a tool runs.
use ai_agent_task_assistant.Common.{
  ℕ, ◌<◌, String, ◌≡◌, ◌↔◌, ◌⊎◌, inl, inr, refl, Bool, true, false, Option, none, some, [], Dict,
  lookup, Value, arith, if◌then◌else◌,
}
use ai_agent_task_assistant.Tools.Schema.{ToolSchema, act, is_act}
use ai_agent_task_assistant.Tools.Permissions.{granted_allows}
use ai_agent_task_assistant.Tools.Security.{is_role_allowed}
use ai_agent_task_assistant.Tools.Executor.{
  Tool, resolve_legacy_category, ToolInput, Params, ToolExecutionContext, approved, World,
}
use ai_agent_task_assistant.Tools.Executor.Pipeline.{
  Step, go, stop, Ended, Report, missing, to_tool_input, check_permission, ask_approval, admit,
  execute,
}

Step-cases : {A : Type 0} (s : Step A) → ((e : Ended) × (s ≡ stop e)) ⊎ ((a : A) × (s ≡ go a))
Step-cases (stop e) = inl (e, refl)
Step-cases (go a) = inr (a, refl)

module _ (render : Value → String) (registry : Dict Tool) (name : String) (params : Params)
    (ctx : ToolExecutionContext) (request_approval : Bool) (world : World) where
  pub record IsAdmitted (tool : Tool) (input : ToolInput) : Type 0 where
    pub registered : lookup name registry ≡ some tool
    pub ready : tool.schema.available ≡ true
    pub complete : missing tool.schema params ≡ []
    pub readable : to_tool_input render params ≡ go input
    pub by_role : is_role_allowed ctx.tool_context.role (resolve_legacy_category tool) ≡ true
    pub by_grants :
        (ctx.granted_permissions ≡ none)
        ⊎ (granted_allows tool.schema.permissions ctx.granted_permissions ≡ some true)
    pub by_approval :
        (request_approval ≡ false)
        ⊎ (world.gate ≡ some approved)
        ⊎ ((world.gate ≡ none) × (is_act tool.schema.category ≡ false))
    pub live : world.cancelled 0 ≡ false

  check_permission_iff :
      (tool : Tool)
      → (check_permission tool ctx ≡ go tt) ↔ (
          (is_role_allowed ctx.tool_context.role (resolve_legacy_category tool) ≡ true)
          × ((ctx.granted_permissions ≡ none)
              ⊎ (granted_allows tool.schema.permissions ctx.granted_permissions ≡ some true)))
  unfolding check_permission
  check_permission_iff tool = ground arith

  ask_approval_iff :
      (schema : ToolSchema)
      → ((if request_approval then ask_approval world.gate schema else go tt) ≡ go tt) ↔ (
          (request_approval ≡ false)
          ⊎ (world.gate ≡ some approved)
          ⊎ ((world.gate ≡ none) × (is_act schema.category ≡ false)))
  unfolding ask_approval
  ask_approval_iff schema = ground arith

  pub admit_iff :
      (tool : Tool) (input : ToolInput)
      → (admit render registry name params ctx request_approval world ≡ go (tool, input))
        ↔ IsAdmitted tool input
  unfolding admit
  admit_iff tool input = (
    λ h. ground (arith, check_permission_iff tool, ask_approval_iff tool.schema),
    λ h. ground (arith, check_permission_iff tool, ask_approval_iff tool.schema),
  )

  abbrev admission : Step (Tool × ToolInput)
  admission = admit render registry name params ctx request_approval world

  module _ (max_retries default_timeout : ℕ) (limit : Option ℕ) where
    abbrev report : Report
    report =
        execute render registry max_retries default_timeout name params ctx request_approval limit
          world

    -- A tool is run only for a registered and available one, with every required parameter given, a
    -- role and grants that allow it, an approval where one is asked for (or no gate, and a tool that
    -- does not act), and no cancellation.
    pub execute_runs :
        0 < report.calls → (tool : Tool) × (input : ToolInput) × IsAdmitted tool input
    unfolding execute
    execute_runs h = elim (Step-cases admission) [
      | inl (e, stopped) ↦ ground (arith, stopped)
      | inr ((tool, input), passed) ↦ (tool, input, (admit_iff tool input).0 passed)
    ]

    -- With `request_approval`, a tool of the category `act` runs only if the gate approved it.
    pub execute-act_approved :
        (tool : Tool)
        → lookup name registry ≡ some tool
        → tool.schema.category ≡ act
        → request_approval ≡ true
        → 0 < report.calls
        → world.gate ≡ some approved
    execute-act_approved tool found acts asked h =
        let (t, input, ok) = execute_runs h in ground (arith, ok.registered, ok.by_approval)

    -- Every admitted call writes one audit record, and no other does.
    pub execute-audited_iff :
        (report.audited ≡ true) ↔ ((tool : Tool) × (input : ToolInput) × IsAdmitted tool input)
    unfolding execute
    execute-audited_iff = elim (Step-cases admission) [
      | inl (e, stopped) ↦
          rw (stopped, execute)
            (λ h. cc, λ (tool, input, ok). cc (stopped, (admit_iff tool input).1 ok))
      | inr ((tool, input), passed) ↦
          rw (passed, execute) (λ h. (tool, input, (admit_iff tool input).0 passed), λ h. refl)
    ]
