-- ===== src/Tasks/Control/Requests.antt =====
-- What the registers of app/services/task_control.py answer after any calls.
use ai_agent_task_assistant.Common.{
  eq_refl, String, ◌≡◌, refl, ap, Bool, true, false, List, [], ◌∷◌, ◌==◌, eq_iff, arith,
  if◌then◌else◌,
}
use ai_agent_task_assistant.Tasks.Control.{
  TaskControlService, empty, contains, add, discard, clear, should_pause, should_cancel, Request,
  pause_of, cancel_of, unpause_of, clear_of, reset, apply,
}

contains_congr : (k j : String) (s : List String) → (k == j) ≡ true → contains k s ≡ contains j s
contains_congr k j s h = ap (λ i. contains i s) ((eq_iff k j).0 h)

contains-add :
    (k j : String) (s : List String)
    → contains j (add k s) ≡ (if k == j then true else contains j s)
unfolding contains add
contains-add k j s = ground (arith, contains_congr k j s)

contains-discard :
    (k j : String) (s : List String)
    → contains j (discard k s) ≡ (if k == j then false else contains j s)
unfolding contains discard
contains-discard k j [] = ground arith
contains-discard k j (x ∷ s) =
    ground (arith, eq_iff k j, eq_iff x k, eq_iff x j, contains-discard k j s)

-- a task whose requests are cleared is asked nothing
pub clear-quiet :
    (c : TaskControlService) (k : String)
    → (should_pause (clear c k) k ≡ false) × (should_cancel (clear c k) k ≡ false)
unfolding clear should_pause should_cancel
clear-quiet c k = (
  ground (arith, contains-discard k k c.pause, eq_refl k),
  ground (arith, contains-discard k k c.cancel, eq_refl k),
)

-- what one task is asked to do
pub data Wish : Type 0 where
  nothing to_pause to_cancel : Wish

abbrev unpaused : Wish → Wish
unpaused to_pause = nothing
unpaused w = w

-- The specification: each task has one wish, and a call sets that of its task.
abbrev pub wish_step : Request → String → Wish → Wish
wish_step (pause_of k) j w = if k == j then to_pause else w
wish_step (cancel_of k) j w = if k == j then to_cancel else w
wish_step (unpause_of k) j w = if k == j then unpaused w else w
wish_step (clear_of k) j w = if k == j then nothing else w
wish_step reset j w = nothing

abbrev wants_pause : Wish → Bool
wants_pause to_pause = true
wants_pause _ = false

abbrev wants_cancel : Wish → Bool
wants_cancel to_cancel = true
wants_cancel _ = false

-- The registers answer as the wish says.
pub record Shows (c : TaskControlService) (j : String) (w : Wish) : Type 0 where
  pub pauses : should_pause c j ≡ wants_pause w
  pub cancels : should_cancel c j ≡ wants_cancel w

pub apply-Shows :
    (c : TaskControlService) (r : Request) (j : String) (w : Wish)
    → Shows c j w
    → Shows (apply c r) j (wish_step r j w)
unfolding apply should_pause should_cancel
apply-Shows c (pause_of k) j w h =
    ground (arith, contains-add k j c.pause, contains-discard k j c.cancel)
apply-Shows c (cancel_of k) j w h =
    ground (arith, contains-discard k j c.pause, contains-add k j c.cancel)
apply-Shows c (unpause_of k) j w h = ground (arith, contains-discard k j c.pause)
apply-Shows c (clear_of k) j w h =
    ground (arith, contains-discard k j c.pause, contains-discard k j c.cancel)
apply-Shows c reset j w h = unfold contains in record { pauses = refl; cancels = refl }

pub run : TaskControlService → List Request → TaskControlService
run c [] = c
run c (r ∷ rs) = run (apply c r) rs

abbrev pub wish_after : List Request → String → Wish → Wish
wish_after [] j w = w
wish_after (r ∷ rs) j w = wish_after rs j (wish_step r j w)

pub run-Shows :
    (c : TaskControlService) (rs : List Request) (j : String) (w : Wish)
    → Shows c j w
    → Shows (run c rs) j (wish_after rs j w)
unfolding run
run-Shows c [] j w h = h
run-Shows c (r ∷ rs) j w h = run-Shows (apply c r) rs j (wish_step r j w) (apply-Shows c r j w h)

-- After any calls on the empty registers, each task is asked to pause, or to cancel, or neither,
-- and never both: just what the last call that was for it, or for all, left.
pub run-Shows_wish :
    (rs : List Request) (j : String) → Shows (run empty rs) j (wish_after rs j nothing)
run-Shows_wish rs j =
    run-Shows empty rs j nothing
      (unfold should_pause should_cancel contains in record { pauses = refl; cancels = refl })
