-- ===== src/Tasks/Control.antt =====
-- app/services/task_control.py: the registers of pause and cancel requests. A set is the list of
-- its members; each method holds the lock from end to end, so it is one step.
pub mod Requests
use ai_agent_task_assistant.Common.{
  String, Bool, true, false, not, List, [], ◌∷◌, any, keep_if, ◌==◌, if◌then◌else◌,
}

pub record TaskControlService : Type 0 where
  pub pause : List String
  pub cancel : List String

abbrev pub empty : TaskControlService
empty = record { pause = []; cancel = [] }

-- `task_id in s`, `s.add(task_id)`, `s.discard(task_id)`
unfoldable pub contains : String → List String → Bool
contains k [] = false
contains k (x ∷ s) = if x == k then true else contains k s

add : String → List String → List String
add k s = if contains k s then s else k ∷ s

discard : String → List String → List String
discard k [] = []
discard k (x ∷ s) = let rest = discard k s in if x == k then rest else x ∷ rest

unfoldable pub request_pause : TaskControlService → String → TaskControlService
unfolding add discard
request_pause c k = record { pause = add k c.pause; cancel = discard k c.cancel }

unfoldable pub request_cancel : TaskControlService → String → TaskControlService
unfolding add discard
request_cancel c k = record { pause = discard k c.pause; cancel = add k c.cancel }

unfoldable pub clear_pause : TaskControlService → String → TaskControlService
unfolding discard
clear_pause c k = record c { pause = discard k c.pause }

unfoldable pub clear : TaskControlService → String → TaskControlService
unfolding discard
clear c k = record { pause = discard k c.pause; cancel = discard k c.cancel }

unfoldable pub reset_all : TaskControlService → TaskControlService
reset_all c = empty

unfoldable pub should_pause : TaskControlService → String → Bool
should_pause c k = contains k c.pause

unfoldable pub should_cancel : TaskControlService → String → Bool
should_cancel c k = contains k c.cancel

-- the calls that change the registers
pub data Request : Type 0 where
  pause_of cancel_of unpause_of clear_of : String → Request
  reset : Request

unfoldable pub apply : TaskControlService → Request → TaskControlService
unfolding request_pause request_cancel clear_pause clear reset_all
apply c (pause_of k) = request_pause c k
apply c (cancel_of k) = request_cancel c k
apply c (unpause_of k) = clear_pause c k
apply c (clear_of k) = clear c k
apply c reset = reset_all c
