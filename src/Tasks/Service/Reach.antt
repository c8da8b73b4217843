-- ===== src/Tasks/Service/Reach.antt =====
-- What no sequence of calls of app/services/task_service.py changes.
use ai_agent_task_assistant.Common.{◌∙◌}
use ai_agent_task_assistant.Tasks.Model.{Task}
use ai_agent_task_assistant.Tasks.Repository.{Repo}
use ai_agent_task_assistant.Tasks.Service.Keyed.{
  SameIdentity, SameIdentity-refl, IsKeyed, Keeps, Call, Call-Keeps,
}

pub data Calls (repo : Repo) : Repo → Type 0 where
  done : Calls repo repo
  next : {r r' : Repo} → Calls repo r → Call r r' → Calls repo r'

pub SameIdentity-trans : {t u v : Task} → SameIdentity t u → SameIdentity u v → SameIdentity t v
SameIdentity-trans a b = record {
  id = b.id ∙ a.id;
  goal = b.goal ∙ a.goal;
  owner = b.owner ∙ a.owner;
  tenant = b.tenant ∙ a.tenant;
  created = b.created ∙ a.created;
}

pub Keeps-trans : {a b c : Repo} → Keeps a b → Keeps b c → Keeps a c
Keeps-trans p q = record {
  keyed = q.keyed;
  kept = λ k t e.
      let (u, f, s) = p.kept k t e in
      let (v, g, s') = q.kept k u f in (v, g, SameIdentity-trans s s');
}

-- In a repository whose tasks stand under their own identifiers, whatever calls the service gets,
-- with fresh identifiers for new tasks, and where no update of a status names the identifier, the
-- goal, the owner, the tenant or the time of creation as a field to change: each task stays there
-- under its identifier, with its goal, its owner, its tenant and its time of creation, and every
-- task stands under its own identifier.
pub Calls-Keeps : (repo repo' : Repo) → IsKeyed repo → Calls repo repo' → Keeps repo repo'
Calls-Keeps repo repo' h done = record { keyed = h; kept = λ k t e. (t, e, SameIdentity-refl t) }
Calls-Keeps repo repo' h (next cs c) =
    let p = Calls-Keeps repo _ h cs in Keeps-trans p (Call-Keeps p.keyed c)
