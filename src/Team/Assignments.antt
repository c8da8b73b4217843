-- ===== src/Team/Assignments.antt =====
-- The assignments of app/agent/multi_agent.py and the results that answer them.
use ai_agent_task_assistant.Common.{
  ℕ, ◌≡◌, ◌≢◌, ◌↔◌, ◌⊎◌, inl, inr, refl, ap, ◌∙◌, true, Option, none, some, Option-cases,
  Bool-cases, List, [], ◌∷◌, ◌++◌, append-nil, append_assoc, map, take, All, Text, text_eq,
  text_eq_iff, lower, strip, arith,
}
use ai_agent_task_assistant.Team.{
  mode_multi_agent, mode_single, default_agent_role, AgentRole, RawAssignment, Decision, Assignment,
  is_agent_role, clean_role, cleaned, clean_assignments, team_or_single, text_or, supervise, Work,
  AgentResult, agent_of, finished, run_each, run_agents,
}

-- the assignment that a result answers
abbrev pub answered : AgentResult → Assignment
answered r = record { role = r.role; objective = r.objective }

finished-stops : (a : Assignment) (w : Work) → finished a w ≡ none → w ≡ Work.stops
finished-stops a (Work.answers t) h = absurd (cc h)
finished-stops a Work.times_out h = absurd (cc h)
finished-stops a (Work.fails t) h = absurd (cc h)
finished-stops a Work.stops h = refl

map-append :
    (f : AgentResult → Assignment) (xs ys : List AgentResult)
    → map f (xs ++ ys) ≡ map f xs ++ map f ys
map-append f [] ys = refl
map-append f (x ∷ xs) ys = ap (λ l. f x ∷ l) (map-append f xs ys)

module _ (work : AgentRole → Assignment → List AgentResult → Work) where
  finished-answered :
      (a : Assignment) (w : Work) (r : AgentResult) → finished a w ≡ some r → answered r ≡ a
  finished-answered a (Work.answers t) r h = ground (arith, h)
  finished-answered a Work.times_out r h = ground (arith, h)
  finished-answered a (Work.fails t) r h = ground (arith, h)
  finished-answered a Work.stops r h = absurd (cc h)

  run_each-answered :
      (done : List AgentResult) (todo : List Assignment) (rs : List AgentResult)
      → run_each work done todo ≡ some rs
      → map answered rs ≡ map answered done ++ todo
  unfolding run_each
  run_each-answered done [] rs h = rw append-nil (ground (arith, h))
  run_each-answered done (a ∷ todo) rs h =
      elim (Option-cases (finished a (work (agent_of a.role) a done))) [
        | inl stopped ↦ absurd (cc (rw (stopped, run_each) at h))
        | inr (r, made) ↦
            let rest : run_each work (done ++ (r ∷ [])) todo ≡ some rs = rw (made, run_each) at h in
            run_each-answered (done ++ (r ∷ [])) todo rs rest
            ∙ ap (λ l. l ++ todo) (map-append answered done (r ∷ []))
            ∙ append_assoc (map answered done) (answered r ∷ []) todo
            ∙ ap (λ x. map answered done ++ (x ∷ todo))
                (finished-answered a (work (agent_of a.role) a done) r made)
      ]

  -- Where the node returns, its results answer the assignments, up to the limit on steps, one each
  -- and in their order.
  pub run_agents-answered :
      (max_steps : ℕ) (assignments : List Assignment) (rs : List AgentResult)
      → run_agents work max_steps assignments ≡ some rs
      → map answered rs ≡ take max_steps assignments
  unfolding run_agents
  run_agents-answered max_steps assignments rs h =
      run_each-answered [] (take max_steps assignments) rs h

  -- work that neither exhausts the budget nor pauses
  abbrev pub Goes : Type 0
  Goes =
      (agent : AgentRole) (a : Assignment) (done : List AgentResult)
      → work agent a done ≢ Work.stops

  run_each-total :
      Goes → (done : List AgentResult) (todo : List Assignment) → run_each work done todo ≢ none
  unfolding run_each
  run_each-total goes done [] h = cc h
  run_each-total goes done (a ∷ todo) h =
      elim (Option-cases (finished a (work (agent_of a.role) a done))) [
        | inl stopped ↦
            goes (agent_of a.role) a done (finished-stops a (work (agent_of a.role) a done) stopped)
        | inr (r, made) ↦ run_each-total goes (done ++ (r ∷ [])) todo (rw (made, run_each) at h)
      ]

  -- Where no sub-agent exhausts the budget or pauses, the node returns, with one result for each
  -- assignment up to the limit on steps, in their order: timeouts and failures of some do not end the
  -- work of the others.
  pub run_agents-total :
      Goes
      → (max_steps : ℕ) (assignments : List Assignment)
      → (rs : List AgentResult) × (run_agents work max_steps assignments ≡ some rs)
        × (map answered rs ≡ take max_steps assignments)
  run_agents-total goes max_steps assignments =
      elim (Option-cases (run_agents work max_steps assignments)) [
        | inl stopped ↦
            absurd
              (unfold run_agents in run_each-total goes [] (take max_steps assignments) stopped)
        | inr (rs, e) ↦ (rs, e, run_agents-answered max_steps assignments rs e)
      ]

abbrev pub IsRole : Text → Type 0
IsRole role = (is_agent_role role ≡ true) ⊎ (role ≡ default_agent_role)

-- an assignment that a sub-agent can work on
abbrev pub IsClean : Assignment → Type 0
IsClean a = IsRole a.role × (a.objective ≢ [])

clean_role-IsRole : (role : Option Text) → IsRole (clean_role role)
unfolding clean_role
clean_role-IsRole role =
    elim (Bool-cases (is_agent_role (lower (strip (text_or role default_agent_role))))) [
      | inl known ↦ rw known (inl known)
      | inr unknown ↦ rw unknown (inr refl)
    ]

clean_assignments-IsClean : (items : List RawAssignment) → All IsClean (clean_assignments items)
unfolding clean_assignments
clean_assignments-IsClean [] = tt
clean_assignments-IsClean (item ∷ items) = ground (
  arith,
  clean_assignments-IsClean items,
  clean_role-IsRole item.role,
  text_eq_iff (cleaned item).objective [],
)

-- what the supervisor hands out, with its mode
abbrev pub IsTeam : Text × List Assignment → Type 0
IsTeam d = ((d.0 ≡ mode_multi_agent) ↔ (d.1 ≢ [])) × All IsClean d.1

single-IsTeam : IsTeam (mode_single, [])
single-IsTeam = ((λ h. absurd (cc h), λ h. absurd (h refl)), tt)

team_or_single-IsTeam :
    (assignments : List Assignment) → All IsClean assignments → IsTeam (team_or_single assignments)
team_or_single-IsTeam [] h = single-IsTeam
team_or_single-IsTeam (a ∷ assignments) h = ((λ e. λ n. cc n, λ n. refl), h)

-- The supervisor takes the mode of several agents exactly where it hands out some assignment, and
-- each that it hands out has a known role and an objective.
pub supervise-IsClean : (decision : Option Decision) → IsTeam (supervise decision)
unfolding supervise
supervise-IsClean none = single-IsTeam
supervise-IsClean (some decision) =
    elim (Bool-cases
      (text_eq (lower (strip (text_or decision.mode mode_single))) mode_multi_agent)) [
        | inl team ↦ rw team (team_or_single-IsTeam _ (clean_assignments-IsClean decision.agents))
        | inr alone ↦ rw alone single-IsTeam
      ]
