-- ===== src/Agent/Identity.antt =====
-- The tasks that a run of app/services/agent_service.py meets stay there, with their identity.
use ai_agent_task_assistant.Common.{
  String, ◌≡◌, ◌⊎◌, refl, inl, inr, Bool-cases, Option-cases, Option, none, some, List, [], ◌∷◌,
  Dict, Value,
}
use ai_agent_task_assistant.Tasks.Model.{executing, reflecting, replanning}
use ai_agent_task_assistant.Tasks.Repository.{Repo}
use ai_agent_task_assistant.Tasks.Service.Sync.{sync_reflection}
use ai_agent_task_assistant.Tasks.Service.Keyed.{
  IsKeyed, Keeps, sets_status, syncs_plan, syncs_results, syncs_reflection, syncs_mode,
  syncs_agents,
}
use ai_agent_task_assistant.Tasks.Service.Reach.{Calls, done, next, Calls-Keeps, Keeps-trans}
use ai_agent_task_assistant.Workflow.Graph.{
  Node, supervisor, sub_agents, reviewer, planner, executor, reflection, replanner,
}
use ai_agent_task_assistant.Agent.Events.{
  NodeOutput, Failure, Entry, output, interrupts, Boundary, Stream, ended, breaks, yields, filled,
  set_status, sync_mode, is_mode, sync_node, Shared, Reading, exhausted, stopped, broken,
  StopReason, stop_at, approval_of, passed, read_entries, read_event, read_stream, or_earlier,
}

-- what other callers do keeps the tasks and their identity
abbrev pub IsQuiet : (Repo → Repo) → Type 0
IsQuiet others = (repo : Repo) → IsKeyed repo → Keeps repo (others repo)

unfoldable pub AreQuiet : List (Boundary × Entry) → Type 0
AreQuiet [] = Unit
AreQuiet ((b, entry) ∷ entries) = IsQuiet b.others × AreQuiet entries

unfoldable pub IsQuietStream : Stream → Type 0
IsQuietStream ended = Unit
IsQuietStream (breaks failure) = Unit
IsQuietStream (yields entries stream) = AreQuiet entries × IsQuietStream stream

abbrev pub shared_of : Reading → Shared
shared_of (exhausted s final) = s
shared_of (stopped reason s) = s
shared_of (broken failure s) = s

pub Keeps-self : (repo : Repo) → IsKeyed repo → Keeps repo repo
Keeps-self repo h = Calls-Keeps repo repo h done

mode_call :
    (repo : Repo) (now task_id : String) (mode : Option String)
    → Calls repo (sync_mode repo now task_id mode)
mode_call repo now task_id none = done
mode_call repo now task_id (some mode) = next done (syncs_mode now task_id (some mode))

pub sync_node-Keeps :
    (repo : Repo) (now task_id : String) (node : Node) (o : NodeOutput)
    → IsKeyed repo
    → Keeps repo (sync_node repo now task_id node o)
unfolding sync_node
sync_node-Keeps repo now task_id supervisor o h =
    let mode = mode_call repo now task_id (filled o.execution_mode) in
    elim (Bool-cases (is_mode "multi_agent" o.execution_mode)) [
      | inl team ↦
          rw team (Calls-Keeps repo _ h (next mode (sets_status now task_id executing [] tt)))
      | inr alone ↦ rw alone (Calls-Keeps repo _ h mode)
    ]
sync_node-Keeps repo now task_id sub_agents o h = Calls-Keeps repo _ h (
    next
      (next (next done (sets_status now task_id executing [] tt))
        (syncs_mode now task_id (some "multi_agent")))
      (syncs_agents now task_id o.agent_results))
sync_node-Keeps repo now task_id reviewer o h = Keeps-self repo h
sync_node-Keeps repo now task_id planner o h =
    Calls-Keeps repo _ h
      (next (next done (sets_status now task_id executing [] tt)) (syncs_plan now task_id o.plan))
sync_node-Keeps repo now task_id executor o h = Calls-Keeps repo _ h (
    next (next done (sets_status now task_id executing [] tt))
      (syncs_results now task_id o.task_results))
sync_node-Keeps repo now task_id reflection o h =
    let synced : Calls repo (
        sync_reflection (set_status repo now task_id reflecting) now task_id o.reflection_result
          o.iteration_count) =
      next (next done (sets_status now task_id reflecting [] tt))
        (syncs_reflection now task_id o.reflection_result o.iteration_count) in
    elim (Bool-cases o.should_replan) [
      | inl again ↦
          rw again (Calls-Keeps repo _ h (next synced (sets_status now task_id replanning [] tt)))
      | inr over ↦ rw over (Calls-Keeps repo _ h synced)
    ]
sync_node-Keeps repo now task_id replanner o h =
    let planned =
      next (next done (sets_status now task_id executing [] tt)) (syncs_plan now task_id o.plan) in
    elim (Option-cases o.iteration_count) [
      | inl missing ↦ rw missing (Calls-Keeps repo _ h planned)
      | inr (n, there) ↦
          rw there
            (Calls-Keeps repo _ h (next planned (syncs_reflection now task_id none (some n))))
    ]

pub Reading-cases :
    (r : Reading)
    → ((s : Shared) × (final : Option String) × (r ≡ exhausted s final))
      ⊎ ((reason : StopReason) × (s : Shared) × (r ≡ stopped reason s))
      ⊎ ((failure : Failure) × (s : Shared) × (r ≡ broken failure s))
Reading-cases (exhausted s final) = inl (s, final, refl)
Reading-cases (stopped reason s) = inr (inl (reason, s, refl))
Reading-cases (broken failure s) = inr (inr (failure, s, refl))

module _ (task_id : String) where
  pub passed-Keeps :
      (b : Boundary) (entry : Entry) (s : Shared)
      → IsQuiet b.others
      → IsKeyed s.repo
      → Keeps s.repo (passed task_id b entry s).repo
  passed-Keeps b (output node o) s q h =
      let others = q s.repo h in
      Keeps-trans others (sync_node-Keeps (b.others s.repo) b.now task_id node o others.keyed)
  passed-Keeps b (interrupts payloads) s q h = q s.repo h

  read_entries-Keeps :
      (s : Shared) (final : Option String) (entries : List (Boundary × Entry))
      → AreQuiet entries
      → IsKeyed s.repo
      → Keeps s.repo (shared_of (read_entries task_id s final entries)).repo
  unfolding read_entries AreQuiet
  read_entries-Keeps s final [] q h = Keeps-self s.repo h
  read_entries-Keeps s final ((b, output node o) ∷ entries) (quiet, rest) h =
      let s' = passed task_id b (output node o) s in
      let k = passed-Keeps b (output node o) s quiet h in
      let ks =
        read_entries-Keeps s' (or_earlier (filled o.final_result) final) entries rest k.keyed in
      elim (Option-cases (stop_at s'.control task_id)) [
        | inl goes_on ↦ rw goes_on (Keeps-trans k ks)
        | inr (reason, stop) ↦ rw stop k
      ]
  read_entries-Keeps s final ((b, interrupts payloads) ∷ entries) (quiet, rest) h =
      let s' = passed task_id b (interrupts payloads) s in
      let k = quiet s.repo h in
      elim (Option-cases (stop_at s'.control task_id)) [
        | inl goes_on ↦ rw goes_on k
        | inr (reason, stop) ↦ rw stop k
      ]

  read_event-Keeps :
      (approval : Option (Dict Value)) (s : Shared) (final : Option String)
      (entries : List (Boundary × Entry))
      → AreQuiet entries
      → IsKeyed s.repo
      → Keeps s.repo (shared_of (read_event task_id approval s final entries)).repo
  read_event-Keeps (some payload) s final entries q h = Keeps-self s.repo h
  read_event-Keeps none s final entries q h = read_entries-Keeps s final entries q h

  pub read_stream-Keeps :
      (stream : Stream) (s : Shared) (final : Option String)
      → IsQuietStream stream
      → IsKeyed s.repo
      → Keeps s.repo (shared_of (read_stream task_id s final stream)).repo
  unfolding read_stream IsQuietStream
  read_stream-Keeps ended s final q h = Keeps-self s.repo h
  read_stream-Keeps (breaks failure) s final q h = Keeps-self s.repo h
  read_stream-Keeps (yields entries stream) s final (quiet, rest) h =
      let k = read_event-Keeps (approval_of entries) s final entries quiet h in
      elim (Reading-cases (read_event task_id (approval_of entries) s final entries)) [
        | inl (s', final', e) ↦
            let k' : Keeps s.repo s'.repo = rw e at k in
            rw (e, shared_of, read_stream)
              (Keeps-trans k' (read_stream-Keeps stream s' final' rest k'.keyed))
        | inr (inl (reason, s', e)) ↦
            let k' : Keeps s.repo s'.repo = rw e at k in rw (e, shared_of, read_stream) k'
        | inr (inr (failure, s', e)) ↦
            let k' : Keeps s.repo s'.repo = rw e at k in rw (e, shared_of, read_stream) k'
      ]
