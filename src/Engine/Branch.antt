-- ===== src/Engine/Branch.antt =====
-- IfStepProcessorActor.java.
use gitb.Base.{Bool, true, false, ℕ, Option, none, some, List, [], ◌∷◌, ◌++◌}
use gitb.Engine.{
  StepStatus, skipped, error, completed, TestResult, undefined, StatusEvent, get_status, Message,
  start_child, stop_children, tell_processing, tell_completed, tell_children_error, Turn, turn,
  throws, on_receive,
}

-- The branches have the ids of the step with "[T]" and "[F]" after it.
pub data Branch : Type 0 where
  then_branch else_branch : Branch

-- The actor keeps no state that it reads: the value of the condition and the branch that was
-- started are all that can be told of it.
pub record If : Type 0 where
  pub condition : Bool
  pub branch : Option (Branch × ℕ)
  pub skips : List (Branch × StepStatus × TestResult)  -- published by `sendSkippedStatusEvent`

abbrev pub new_if : If
new_if = record { condition = false; branch = none; skips = [] }

-- `start`, with the value of the condition, none for an exception, and the uid of the branch.
abbrev pub start_branch : Bool → ℕ → If → Option Bool → Turn If
start_branch is_named fresh s none = throws s (tell_processing is_named)
start_branch is_named fresh s (some true) =
    turn
      (record {
        condition = true;
        branch = some (then_branch, fresh);
        skips = s.skips ++ (else_branch, skipped, undefined) ∷ [];
      })
      (tell_processing is_named ++ start_child fresh ∷ [])
start_branch is_named fresh s (some false) =
    turn
      (record {
        condition = false;
        branch = some (else_branch, fresh);
        skips = s.skips ++ (then_branch, skipped, undefined) ∷ [];
      })
      (tell_processing is_named ++ start_child fresh ∷ [])

unfoldable pub if_start : Bool → Option Bool → ℕ → If → Turn If
if_start is_named condition fresh s = start_branch is_named fresh s condition

unfoldable pub if_stop : If → Turn If
if_stop s = turn s (stop_children ∷ [])

unfoldable pub if_handle_status_event : Bool → StatusEvent → If → Turn If
if_handle_status_event is_named event s = elim (get_status event) [
  | completed ↦ turn s (tell_completed is_named)
  | error ↦ turn s (tell_children_error is_named)
  | _ ↦ turn s []
]

abbrev pub if_receive : Bool → StatusEvent → If → If × List Message
if_receive is_named e s = on_receive is_named (if_handle_status_event is_named e s)
