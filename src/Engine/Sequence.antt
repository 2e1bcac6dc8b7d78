-- ===== src/Engine/Sequence.antt =====
-- SequenceProcessorActor.java, which GroupStepProcessorActor.java extends.
pub mod Places
pub mod Statuses
pub mod Order
use gitb.Base.{
  ℕ, suc, ◌+◌, Bool, true, false, ◌||◌, Option, none, some, List, [], ◌∷◌, ◌++◌, ◌==◌,
  if◌then◌else◌, get_elem?,
}
use mathlib.Core.Option
use gitb.Engine.{
  StepStatus, is_error, StatusEvent, get_status, Message, start_child, stop_children, processing,
  skipped, waiting, error, completed, tell_processing, tell_completed, tell_children_error, Turn,
  turn, throws, on_receive,
}

-- `children` holds the children in order, for `childStepIndexActorMap` and, by their uids,
-- `childActorUidIndexMap`; `child_statuses` is `childStepStatuses`.
pub record Sequence : Type 0 where
  pub children : List ℕ
  pub child_statuses : List (ℕ × StepStatus)

-- `init`, with the actors that were created for the steps.
abbrev pub init : List ℕ → Sequence
init children = record { children = children; child_statuses = [] }

-- The index that `childActorUidIndexMap` has for a uid.
unfoldable pub index_of : ℕ → List ℕ → Option ℕ
index_of u [] = none
index_of u (c ∷ cs) = let rest = index_of u cs in if c == u then some 0 else Option.map suc rest

unfoldable pub put : ℕ → StepStatus → List (ℕ × StepStatus) → List (ℕ × StepStatus)
put k v [] = (k, v) ∷ []
put k v ((i, w) ∷ m) = let rest = put k v m in if i == k then (k, v) ∷ m else (i, w) ∷ rest

-- Whether one of the recorded statuses is ERROR.
abbrev pub has_error : List (ℕ × StepStatus) → Bool
has_error [] = false
has_error ((i, s) ∷ m) = is_error s || has_error m

-- The statuses after which the next step is started.
abbrev pub ends_step : StepStatus → Bool
ends_step completed = true
ends_step error = true
ends_step skipped = true
ends_step _ = false

-- `startTestStepAtIndex`: the message, and whether there is such a child.
abbrev pub start_command : Option ℕ → List Message × Bool
start_command none = ([], false)
start_command (some c) = (start_child c ∷ [], true)

unfoldable pub start_test_step_at_index : Sequence → ℕ → List Message × Bool
start_test_step_at_index s i = start_command (get_elem? s.children i)

unfoldable pub start : Bool → Sequence → Turn Sequence
unfolding start_test_step_at_index
start is_named s = turn s (tell_processing is_named ++ (start_test_step_at_index s 0).0)

unfoldable pub stop : Sequence → Turn Sequence
stop s = turn (record s { children = [] }) (stop_children ∷ [])

-- The end of `handleStatusEvent`, for the child at an index.
abbrev pub report_unless_started : Bool → Sequence → List Message × Bool → Turn Sequence
report_unless_started is_named s (ms, true) = turn s ms
report_unless_started is_named s (ms, false) =
    if has_error s.child_statuses
    then turn s (ms ++ tell_children_error is_named)
    else turn s (ms ++ tell_completed is_named)

unfoldable pub go_on : Bool → Sequence → ℕ → Turn Sequence
unfolding start_test_step_at_index
go_on is_named s i = report_unless_started is_named s (start_test_step_at_index s (i + 1))

-- `handleStatusEvent` with the index of the sender; a sender that the map has not is an exception.
unfoldable pub record_status : Bool → StatusEvent → Sequence → Option ℕ → Turn Sequence
unfolding put go_on
record_status is_named event s none = throws s []
record_status is_named event s (some i) =
    let s' = record s { child_statuses = put i (get_status event) s.child_statuses } in
    if ends_step (get_status event) then go_on is_named s' i else turn s' []

unfoldable pub handle_status_event : Bool → ℕ × StatusEvent → Sequence → Turn Sequence
unfolding index_of record_status
handle_status_event is_named (sender, event) s =
    record_status is_named event s (index_of sender s.children)

abbrev pub receive : Bool → ℕ × StatusEvent → Sequence → Sequence × List Message
receive is_named e s = on_receive is_named (handle_status_event is_named e s)
