-- ===== src/Engine/Flow.antt =====
-- FlowStepProcessorActor.java.
pub mod Verdict
use gitb.Base.{
  ℕ, zero, suc, Bool, true, false, Option, none, some, List, [], ◌∷◌, ◌++◌, ℤ, pos, negsuc, map,
  length, if◌then◌else◌,
}
use gitb.Engine.{
  StepStatus, StatusEvent, get_status, Message, start_child, stop_children, error, completed,
  tell_processing, tell_completed, tell_children_error, Turn, turn, throws, on_receive,
}

-- `finished_children` is null until a thread is created, and counts down.
pub record Flow : Type 0 where
  pub children : List ℕ
  pub finished_children : Option ℤ
  pub children_has_error : Bool

abbrev pub threads_left : List ℕ → Option ℤ
threads_left [] = none
threads_left (c ∷ cs) = some (pos (suc (length cs)))

-- `init`, with the actors of the threads.
abbrev pub init : List ℕ → Flow
init children = record {
  children = children;
  finished_children = threads_left children;
  children_has_error = false;
}

unfoldable pub start : Bool → Flow → Turn Flow
start is_named f = turn f (map start_child f.children ++ tell_processing is_named)

unfoldable pub stop : Flow → Turn Flow
stop f = turn (record f { children = [] }) (stop_children ∷ [])

abbrev pub decrement : ℤ → ℤ
decrement (pos zero) = negsuc 0
decrement (pos (suc n)) = pos n
decrement (negsuc n) = negsuc (suc n)

abbrev pub is_zero : ℤ → Bool
is_zero (pos zero) = true
is_zero _ = false

-- The case COMPLETED of `handleStatusEvent`, which ERROR falls into.
unfoldable pub thread_ends : Bool → Flow → Turn Flow
thread_ends is_named f = elim f.finished_children [
  | none ↦ throws f []
  | some n ↦
      (let f' = record f { finished_children = some (decrement n) } in
        if is_zero (decrement n)
        then if f.children_has_error
          then turn f' (tell_completed is_named)
          else turn f' (tell_children_error is_named)
        else turn f' [])
]

unfoldable pub handle_status_event : Bool → StatusEvent → Flow → Turn Flow
unfolding thread_ends
handle_status_event is_named event f = elim (get_status event) [
  | error ↦ thread_ends is_named (record f { children_has_error = true })
  | completed ↦ thread_ends is_named f
  | _ ↦ turn f []
]

abbrev pub receive : Bool → StatusEvent → Flow → Flow × List Message
receive is_named e f = on_receive is_named (handle_status_event is_named e f)
