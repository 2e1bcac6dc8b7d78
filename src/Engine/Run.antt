-- ===== src/Engine/Run.antt =====
-- The steps of a test, executed by the actors of
-- gitb-engine/src/main/java/com/gitb/engine/actors/processors/: each actor creates the actors of
-- its children, starts them and receives how they end.
pub mod Plain
pub mod Sequences
pub mod Loops
pub mod Repeats
pub mod ForEachs
pub mod Refines
pub mod Ends
use gitb.Base.{
  ℤ, ℕ, zero, suc, Bool, true, false, Option, none, some, List, [], ◌∷◌, length, get_elem?,
}
use gitb.Engine.{
  TestResult, StatusEvent, status_event, error_status_event, completed, error, processing, skipped,
  waiting, Message, tell_parent, start_child, stop_children, stop_self, publish, Turn, on_receive,
}
use gitb.Engine.Sequence
use gitb.Engine.ForEach
use gitb.Engine.ForEach.{Range}
use gitb.Engine.Loop.{
  World, Loop, new_loop, while_start, while_receive, repeat_start, repeat_receive,
}
use gitb.Engine.Branch.{
  Branch, then_branch, else_branch, If, new_if, if_start, if_handle_status_event, if_receive,
}
use gitb.Engine.Processor.{Processor, new_processor, Input, started, returned, failed, step}

-- What a step tells its parent at its end.
pub data Ending : Type 0 where
  ends_completed ends_error ends_exception : Ending

abbrev pub event_of : Ending → StatusEvent
event_of ends_completed = status_event completed
event_of ends_error = status_event error
event_of ends_exception = error_status_event

-- What the messages of an actor lead to: the start of a child, the end of its own step, or
-- nothing but waiting for another message.
pub data Reaction : Type 0 where
  starts : ℕ → Reaction
  ends : Ending → Reaction
  waits : Reaction

unfoldable pub reaction : List Message → Reaction
reaction [] = waits
reaction (start_child u ∷ ms) = starts u
reaction (tell_parent (status_event completed) ∷ ms) = ends ends_completed
reaction (tell_parent (status_event error) ∷ ms) = ends ends_error
reaction (tell_parent error_status_event ∷ ms) = ends ends_exception
reaction (_ ∷ ms) = reaction ms

-- The steps of a test, without calls, flows and exits. The processor's steps and the conditions
-- are known by numbers.
mutual
  pub data Step : Type 0 where
    process : ℕ → Step
    group : Steps → Step
    if_step : ℕ → Steps → Steps → Step
    while_step repeat_step : ℕ → Steps → Step
    for_each : ℕ → Range → Steps → Step  -- with the name of the counter

  pub data Steps : Type 0 where
    finish : Steps
    ◌⨾◌ : Step → Steps → Steps

infixr 5 ◌⨾◌
-- How `processor.process` ends.
pub data Processed : Type 0 where
  returns : Option TestResult → Processed
  fails : Processed

abbrev pub input_of : Processed → Input
input_of (returns r) = returned r
input_of fails = failed

module _ (W : Type 0) where
  -- What a step does to the rest of the world, and how it ends; none if it never does.
  abbrev pub Run : Type 0
  Run = W → Option (W × Ending)

  pub record Env : Type 0 where
    pub process_step : ℕ → W → W × Processed
    pub evaluate : ℕ → W → Option Bool
    pub set_counter : ℕ → ℤ → W → W  -- in a scope of the step's own
    pub iteration_limit : ℕ

module _ {W : Type 0} where
  abbrev pub and_then :
      Option (W × Ending) → (W → Ending → Option (W × Ending)) → Option (W × Ending)
  and_then none k = none
  and_then (some (w, e)) k = k w e

  -- An actor that has sent the messages: the child that it starts is run, and it receives how
  -- the child has ended. On fuel, one for each reaction.
  unfoldable pub drive :
      {S : Type 0}
      → (ℕ → StatusEvent → W → S → S × List Message)
      → (S → ℕ → Run W)
      → ℕ
      → W
      → S × List Message
      → Option (W × Ending)
  unfolding reaction
  drive receive child zero w t = none
  drive receive child (suc f) w (s, ms) =
      let rest = drive receive child f in
      elim (reaction ms) [
        | starts u ↦ and_then (child s u w) (λ w' e. rest w' (receive u (event_of e) w' s))
        | ends e ↦ some (w, e)
        | waits ↦ none
      ]

  abbrev pub call : Option (Run W) → Run W
  call none w = none
  call (some r) w = r w

  abbrev pub count_from : ℕ → List (Run W) → List ℕ
  count_from k [] = []
  count_from k (r ∷ rs) = k ∷ count_from (suc k) rs

  -- A sequence actor, whose children do what `rs` do.
  unfoldable pub run_sequence : List (Run W) → Run W
  unfolding drive Sequence.start Sequence.handle_status_event
  run_sequence rs w =
      drive (λ u e w' s. Sequence.receive true (u, e) s) (λ s u. call (get_elem? rs u))
        (suc (length rs)) w
        (on_receive true (Sequence.start true (Sequence.init (count_from 0 rs))))

  abbrev pub branch_of : Run W → Run W → Option (Branch × ℕ) → Run W
  branch_of t e none w = none
  branch_of t e (some (then_branch, u)) w = t w
  branch_of t e (some (else_branch, u)) w = e w

  unfoldable pub run_if : (W → Option Bool) → Run W → Run W → Run W
  unfolding drive if_start if_handle_status_event
  run_if condition t e w =
      let (s, ms) = on_receive true (if_start true (condition w) 0 new_if) in
      drive (λ u event w' s'. if_receive true event s') (λ s' u. branch_of t e s'.branch) 2 w
        (s, ms)

  -- A child gets the number of children before it.
  abbrev pub world_at : (W → Option Bool) → W → Loop → World
  world_at condition w l = record { condition = condition w; fresh = length l.iterations }

  unfoldable pub run_while : ℕ → (W → Option Bool) → Run W → Run W
  unfolding drive while_start while_receive
  run_while limit condition body w =
      drive (λ u e w' l. while_receive limit true (u, e, world_at condition w' l) l) (λ l u. body)
        (suc (suc limit)) w
        (on_receive true (while_start limit true (world_at condition w new_loop) new_loop))

  unfoldable pub run_repeat : ℕ → (W → Option Bool) → Run W → Run W
  unfolding drive repeat_start repeat_receive
  run_repeat limit condition body w =
      drive (λ u e w' l. repeat_receive limit true (u, e, world_at condition w' l) l) (λ l u. body)
        (suc (suc limit)) w
        (on_receive true (repeat_start limit true (world_at condition w new_loop) new_loop))

  unfoldable pub run_for_each : ℕ → Range → (ℤ → W → W) → Run W → Run W
  unfolding drive ForEach.for_each_start ForEach.receive
  run_for_each limit r set body w =
      drive (λ u e w' f. ForEach.receive limit r true e f.iteration f)
        (λ f u w'. body (set f.counter w')) (suc (suc limit)) w
        (on_receive true (ForEach.for_each_start limit r true 0 (ForEach.new_for_each r)))

  -- A processor actor, which has no children.
  unfoldable pub run_processor : (W → W × Processed) → Run W
  unfolding drive step
  run_processor work w =
      let (w', p) = work w in
      let (s, ms) = step true started new_processor in
      drive (λ u e w'' s'. (s', [])) (λ s' u w''. none) 1 w' (step true (input_of p) s)

module _ {W : Type 0} (env : Env W) where
  unfoldable mutual
    unfolding run_processor run_sequence run_if run_while run_repeat run_for_each

    pub run_step : Step → Run W
    run_step (process p) = run_processor (env.process_step p)
    run_step (group b) = run_sequence (run_each b)
    run_step (if_step c t e) =
        run_if (env.evaluate c) (run_sequence (run_each t)) (run_sequence (run_each e))
    run_step (while_step c b) =
        run_while env.iteration_limit (env.evaluate c) (run_sequence (run_each b))
    run_step (repeat_step c b) =
        run_repeat env.iteration_limit (env.evaluate c) (run_sequence (run_each b))
    run_step (for_each c r b) =
        run_for_each env.iteration_limit r (env.set_counter c) (run_sequence (run_each b))

    pub run_each : Steps → List (Run W)
    run_each finish = []
    run_each (s ⨾ b) = run_step s ∷ run_each b
