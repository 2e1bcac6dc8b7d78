-- ===== src/Engine/Loop.antt =====
-- AbstractIterationStepActor.java, WhileStepProcessorActor.java and
-- RepeatUntilStepProcessorActor.java.
pub mod Rounds
pub mod While
pub mod Repeat
use gitb.Base.{
  ℕ, suc, ◌+◌, Bool, true, false, Option, none, some, List, [], ◌∷◌, ◌++◌, ltb, ◌==◌, if◌then◌else◌,
}
use gitb.Engine.{
  StatusEvent, get_status, Message, start_child, stop_children, error, completed, tell_processing,
  tell_completed, tell_children_error, Turn, turn, throws, on_receive,
}

-- `iterations` is `childActorUidIndexMap`: the iteration of each child, the latest first.
pub record Loop : Type 0 where
  pub iterations : List (ℕ × ℕ)
  pub children_has_error : Bool

-- `init`
abbrev pub new_loop : Loop
new_loop = record { iterations = []; children_has_error = false }

-- The value of the condition, or none for an exception, and the uid that a child created now
-- gets.
pub record World : Type 0 where
  pub condition : Option Bool
  pub fresh : ℕ

unfoldable pub iteration_of : ℕ → List (ℕ × ℕ) → Option ℕ
iteration_of u [] = none
iteration_of u ((c, i) ∷ cs) = let rest = iteration_of u cs in if c == u then some i else rest

-- `checkIteration` throws.
abbrev pub exceeds : ℕ → ℕ → Bool
exceeds limit iteration = ltb limit iteration

-- The child of an iteration.
abbrev pub start_iteration : ℕ → World → Loop → Loop
start_iteration iteration w l = record l { iterations = (w.fresh, iteration) ∷ l.iterations }

abbrev pub stop : Loop → Turn Loop
stop l = turn l (stop_children ∷ [])

abbrev pub tell_verdict : Bool → Loop → List Message
tell_verdict is_named l =
    if l.children_has_error then tell_children_error is_named else tell_completed is_named

-- `handleStatusEvent`, up to what is done with the iteration that has ended; a sender that the
-- map has not is an exception.
abbrev pub at_iteration : (ℕ → Loop → Turn Loop) → Loop → Option ℕ → Turn Loop
at_iteration next l none = throws l []
at_iteration next l (some i) = next i l

unfoldable pub iteration_ends : (ℕ → Loop → Turn Loop) → ℕ → Loop → Turn Loop
unfolding iteration_of
iteration_ends next sender l = at_iteration next l (iteration_of sender l.iterations)

unfoldable pub handle_status_event : (ℕ → Loop → Turn Loop) → ℕ → StatusEvent → Loop → Turn Loop
unfolding iteration_ends
handle_status_event next sender event l = elim (get_status event) [
  | error ↦ iteration_ends next sender (record l { children_has_error = true })
  | completed ↦ iteration_ends next sender l
  | _ ↦ turn l []
]

module _ (limit : ℕ) (is_named : Bool) where
  -- `loop` of the while step, of which `started` and `not_started` do what follows its result.
  abbrev pub by_condition :
      (Loop → List Message → Turn Loop)
      → (Loop → Turn Loop)
      → ℕ
      → World
      → Loop
      → Option Bool
      → Turn Loop
  by_condition started not_started i w l none = throws l []
  by_condition started not_started i w l (some true) =
      started (start_iteration i w l) (start_child w.fresh ∷ [])
  by_condition started not_started i w l (some false) = not_started l

  unfoldable pub while_loop :
      (Loop → List Message → Turn Loop) → (Loop → Turn Loop) → ℕ → World → Loop → Turn Loop
  while_loop started not_started i w l =
      if exceeds limit i then throws l [] else by_condition started not_started i w l w.condition

  -- After a step's `processing()`.
  abbrev pub after_processing : Turn Loop → Turn Loop
  after_processing t = record t { sent = tell_processing is_named ++ t.sent }

  unfoldable pub while_start : World → Loop → Turn Loop
  unfolding while_loop
  while_start w l =
      after_processing (while_loop turn (λ l'. turn l' (tell_completed is_named)) 0 w l)

  unfoldable pub while_next : World → ℕ → Loop → Turn Loop
  unfolding while_loop
  while_next w i l = while_loop turn (λ l'. turn l' (tell_verdict is_named l')) (suc i) w l

  unfoldable pub while_receive : ℕ × StatusEvent × World → Loop → Loop × List Message
  unfolding on_receive handle_status_event while_next
  while_receive (sender, event, w) l =
      on_receive is_named (handle_status_event (while_next w) sender event l)

  -- The repeat step, which evaluates its condition only after an iteration.
  unfoldable pub repeat_start : World → Loop → Turn Loop
  repeat_start w l =
      turn (start_iteration 0 w l) (tell_processing is_named ++ start_child w.fresh ∷ [])

  abbrev pub repeat_by : World → ℕ → Loop → Option Bool → Turn Loop
  repeat_by w i l none = throws l []
  repeat_by w i l (some true) =
      if exceeds limit (suc i)
      then throws l []
      else turn (start_iteration (suc i) w l) (start_child w.fresh ∷ [])
  repeat_by w i l (some false) = turn l (tell_verdict is_named l)

  unfoldable pub repeat_next : World → ℕ → Loop → Turn Loop
  repeat_next w i l = repeat_by w i l w.condition

  unfoldable pub repeat_receive : ℕ × StatusEvent × World → Loop → Loop × List Message
  unfolding on_receive handle_status_event repeat_next
  repeat_receive (sender, event, w) l =
      on_receive is_named (handle_status_event (repeat_next w) sender event l)
