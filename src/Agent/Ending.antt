-- ===== src/Agent/Ending.antt =====
-- How the last steps of a run of app/services/agent_service.py leave its task.
use ai_agent_task_assistant.Common.{
  String, ◌≡◌, ◌≢◌, refl, ◌∙◌, inl, inr, Bool, true, false, Bool-cases, Option, none, some, List,
  [], ◌∷◌, ◌==◌, eq_iff, arith,
}
use ai_agent_task_assistant.Tools.Security.{ToolContext}
use ai_agent_task_assistant.Tasks.Model.{
  TaskStatus, awaiting_approval, paused, cancelled, completed, failed, ApprovalRequest, Task,
}
use ai_agent_task_assistant.Tasks.Repository.{get}
use ai_agent_task_assistant.Tasks.Service.{Change, final_result_to, changes, update_task_status}
use ai_agent_task_assistant.Tasks.Service.Keyed.{
  SameIdentity, IsKeyed, AreHarmless, changes-SameIdentity, saves_approval, sets_status, Call-Keeps,
  get-update,
}
use ai_agent_task_assistant.Tasks.Service.Reach.{SameIdentity-trans}
use ai_agent_task_assistant.Tasks.Service.Approval.{save_approval_request}
use ai_agent_task_assistant.Agent.Events.{Failure, other, filled, StopReason, interrupted, Shared}
use ai_agent_task_assistant.Agent.Service.{
  Result, value, raises, World, Settings, Run, Remembered, returned, raised, set, fail,
  persist_approval, remember, noted, complete, conclude, stop, request_of,
}
use ai_agent_task_assistant.Agent.Worker.{left_by}

abbrev pub result_of : Run → Option String
result_of (returned s result remembered) = result
result_of (raised s) = none

abbrev pub is_unfinished : TaskStatus → Bool
is_unfinished failed = true
is_unfinished paused = true
is_unfinished cancelled = true
is_unfinished awaiting_approval = true
is_unfinished _ = false

-- How the task of a run ends: completed, with the text that the run returns; or in a status in which
-- it waits or is given up, where the run returns no text.
pub data Ends (task : Task) : Option String → Type 0 where
  with_result :
      (result : String)
      → task.status ≡ completed
      → task.final_result ≡ some result
      → result ≢ ""
      → Ends task (some result)
  without_result :
      (result : Option String)
      → is_unfinished task.status ≡ true
      → filled result ≡ none
      → Ends task result

differs : (a b : String) → (a == b) ≡ false → a ≢ b
differs a b h e = let same = (eq_iff a b).1 e in absurd (cc same)

module _ (settings : Settings) (world : World) (task_id : String) (caller : ToolContext) where
  abbrev pub IsIn : Shared → Task → Type 0
  IsIn s t = IsKeyed s.repo × (get s.repo task_id ≡ some t)

  -- the task is still there after a run, which ended it
  abbrev pub Outcome : Task → Run → Type 0
  Outcome t r =
      (t' : Task) × (get (left_by r).repo task_id ≡ some t')
      × SameIdentity t t'
      × Ends t' (result_of r)

  pub Outcome-trans : (t u : Task) (r : Run) → SameIdentity t u → Outcome u r → Outcome t r
  Outcome-trans t u r same (t', there, same', ends) =
      (t', there, SameIdentity-trans same same', ends)

  abbrev pub with_status : TaskStatus → List Change → Task → Task
  with_status status kwargs t =
      changes kwargs (record t { status = status; updated_at = world.ended_at })

  pub with_status-same :
      (status : TaskStatus) (kwargs : List Change) (t : Task)
      → AreHarmless kwargs
      → SameIdentity t (with_status status kwargs t)
  with_status-same status kwargs t harmless =
      changes-SameIdentity kwargs t _ harmless (ground arith)

  pub set-get :
      (s : Shared) (t : Task) (status : TaskStatus) (kwargs : List Change)
      → AreHarmless kwargs
      → IsIn s t
      → get (set settings world task_id caller s status kwargs).repo task_id
        ≡ some (with_status status kwargs t)
  unfolding update_task_status
  set-get s t status kwargs harmless (h, e) =
      let id : (with_status status kwargs t).id ≡ task_id =
        (with_status-same status kwargs t harmless).id ∙ h.at task_id t e in
      rw
        (
          e,
          get-update s.repo (with_status status kwargs t) task_id,
          (eq_iff (with_status status kwargs t).id task_id).1 id,
        )
        refl

  set-Outcome :
      (s : Shared) (t : Task) (status : TaskStatus) (kwargs : List Change) (result : Option String)
      (remembered : Option Remembered)
      → AreHarmless kwargs
      → IsIn s t
      → Ends (with_status status kwargs t) result
      → Outcome t (returned (set settings world task_id caller s status kwargs) result remembered)
  set-Outcome s t status kwargs result remembered harmless i ends = (
    with_status status kwargs t,
    set-get s t status kwargs harmless i,
    with_status-same status kwargs t harmless,
    ends,
  )

  pub fail-Outcome :
      (failure : Failure) (s : Shared) (t : Task)
      → IsIn s t
      → Outcome t (fail settings world task_id caller failure s)
  fail-Outcome failure s t i =
      set-Outcome s t failed _ none none (refl, tt) i (without_result none refl refl)

  noted-Outcome :
      (s : Shared) (t : Task) (result : String) (remembered : Result (Option Remembered))
      → IsIn s t
      → result ≢ ""
      → Outcome t (
          noted settings world task_id caller
            (set settings world task_id caller s completed (final_result_to (some result) ∷ []))
            result
            remembered)
  noted-Outcome s t result (value remembered) i something =
      set-Outcome s t completed _ (some result) remembered (refl, tt) i
        (with_result result refl refl something)
  noted-Outcome s t result (raises failure) (h, e) something =
      let kwargs = final_result_to (some result) ∷ [] in
      let s' = set settings world task_id caller s completed kwargs in
      let k = Call-Keeps h (sets_status world.ended_at task_id completed kwargs (refl, tt)) in
      let (u, there, same) = k.kept task_id t e in
      Outcome-trans t u (fail settings world task_id caller failure s') same
        (fail-Outcome failure s' u (k.keyed, there))

  complete-Outcome :
      (goal : String) (s : Shared) (t : Task) (final : Option String)
      → IsIn s t
      → Outcome t (complete settings world task_id caller goal s final)
  complete-Outcome goal s t none i =
      set-Outcome s t failed _ none none (refl, tt) i (without_result none refl refl)
  complete-Outcome goal s t (some result) i = elim (Bool-cases (result == "")) [
    | inl nothing ↦
        rw nothing (
          set-Outcome s t failed _ (some "") none (refl, tt) i (without_result (some "") refl refl))
    | inr something ↦ rw something (
        noted-Outcome s t result (remember settings world task_id caller goal result) i
          (differs result "" something))
  ]

  pub conclude-Outcome :
      (goal : String) (s : Shared) (t : Task) (final : Option String)
      (checkpointed : Result (Option String))
      → IsIn s t
      → Outcome t (conclude settings world task_id caller goal s final checkpointed)
  conclude-Outcome goal s t (some result) checkpointed i = complete-Outcome goal s t (some result) i
  conclude-Outcome goal s t none (value result) i = complete-Outcome goal s t result i
  conclude-Outcome goal s t none (raises failure) i = fail-Outcome failure s t i

  persist-Outcome :
      (request : Option ApprovalRequest) (s : Shared) (t : Task)
      → IsIn s t
      → Outcome t (persist_approval settings world task_id caller request s)
  persist-Outcome none s t i = fail-Outcome (other world.args_error) s t i
  persist-Outcome (some request) s t (h, e) =
      let k = Call-Keeps h (saves_approval world.ended_at request) in
      let (u, there, same) = k.kept task_id t e in
      Outcome-trans t u (persist_approval settings world task_id caller (some request) s) same (
        set-Outcome (record s { repo = save_approval_request s.repo world.ended_at request }) u
          awaiting_approval [] none none tt (k.keyed, there) (without_result none refl refl))

  pub stop-Outcome :
      (reason : StopReason) (s : Shared) (t : Task)
      → IsIn s t
      → Outcome t (stop settings world task_id caller reason s)
  stop-Outcome (interrupted payload) s t i =
      persist-Outcome (request_of world task_id payload) s t i
  stop-Outcome StopReason.paused s t i =
      set-Outcome s t paused [] none none tt i (without_result none refl refl)
  stop-Outcome StopReason.cancelled s t i =
      set-Outcome s t cancelled [] none none tt i (without_result none refl refl)
