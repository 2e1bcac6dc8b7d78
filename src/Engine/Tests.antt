-- ===== src/Engine/Tests.antt =====
-- Runs of the engine's actors on concrete inputs.
mod Sessions
use gitb.Base.{
  ℤ, pos, negsuc, pos_part, ◌*◌, ℕ, suc, ◌+◌, Bool, true, false, not, Option, none, some, List, [],
  ◌∷◌, ◌++◌, All, ltb, length, map, if◌then◌else◌, ◌≡◌, refl, arith,
}
use gitb.Engine.{
  success, failure, status_event, error_status_event, processing, waiting, completed, error,
  start_child, tell_processing, tell_completed, tell_children_error, tell_error, on_receive,
  answers,
}
use gitb.Engine.Children.{Child, no_answer}
use gitb.Engine.Sequence
use gitb.Engine.Sequence.Order.{IsChild, all_events, in_order, answers-sequence}
use gitb.Engine.Flow
use gitb.Engine.Flow.Verdict.{answers-flow}
use gitb.Engine.Loop.{new_loop, while_start, while_receive, repeat_start, repeat_receive}
use gitb.Engine.Loop.Rounds.{IsRound, holds_for, rounds, outcome, in_turn}
use gitb.Engine.Loop.While.{while_end, answers-while}
use gitb.Engine.Loop.Repeat.{answers-repeat}
use gitb.Engine.Processor.{new_processor, started, returned, failed, stopped, send_all}
use gitb.Engine.Processor.Once.{reports, first_end, reports-send_all}
use gitb.Engine.Run.{
  ends_completed, ends_error, ends_exception, Step, process, group, if_step, while_step,
  repeat_step, for_each, Steps, finish, ◌⨾◌, returns, fails, Env, run_step,
}
use gitb.Engine.Run.Plain.{do_step}
use gitb.Engine.Run.Refines.{run_step-do_step}
use gitb.Engine.Run.Ends.{Returns, IsFilled, AllFilled, run_step-Returns}

-- Two children, of which the first waits and then fails.
abbrev first_child : Child
first_child = record {
  uid = 11;
  before = status_event processing ∷ status_event waiting ∷ [];
  last = status_event error;
}

abbrev second_child : Child
second_child = record {
  uid = 12;
  before = status_event processing ∷ [];
  last = status_event completed;
}

abbrev two_children : List Child
two_children = first_child ∷ second_child ∷ []

two_children-IsChild : All IsChild two_children
two_children-IsChild = (
  record { goes_on = (refl, (refl, tt)); ends = refl },
  (record { goes_on = (refl, tt); ends = refl }, tt),
)

answers-sequence_example :
    (Sequence.start true (Sequence.init (11 ∷ 12 ∷ []))).sent
      ∷ answers
          (Sequence.receive true)
          (all_events two_children)
          (Sequence.start true (Sequence.init (11 ∷ 12 ∷ []))).state
    ≡ (tell_processing true ++ start_child 11 ∷ []) ∷ in_order true false two_children
answers-sequence_example =
    answers-sequence true first_child (second_child ∷ []) ((refl, tt), (tt, tt))
      two_children-IsChild

-- A child that fails when it is created starts the step after it, before the first one has ended.
early_failure :
    answers
      (Sequence.receive true)
      ((12, error_status_event) ∷ [])
      (Sequence.start true (Sequence.init (11 ∷ 12 ∷ 13 ∷ []))).state
    ≡ (start_child 13 ∷ []) ∷ []
unfolding Sequence.start Sequence.handle_status_event on_receive
early_failure = refl

-- Two threads, the second of which ends first, and with an error.
answers-flow_example :
    answers
      (Flow.receive true)
      ((status_event processing ∷ status_event error ∷ []) ++ status_event completed ∷ [])
      (Flow.start true (Flow.init (11 ∷ 12 ∷ []))).state
    ≡ map no_answer (status_event processing ∷ status_event error ∷ []) ++ tell_completed true ∷ []
answers-flow_example =
    answers-flow true 11 (12 ∷ []) (status_event processing ∷ status_event error ∷ [])
      (status_event completed) refl refl

-- Two iterations, the first with an error; the condition holds on, and the limit is 1.
answers-while_example :
    let (l, sent) = on_receive true (while_start 1 true (holds_for 11) new_loop) in
    sent ∷ answers (while_receive 1 true) (rounds (some true) two_children) l
    ≡ (tell_processing true ++ start_child 11 ∷ [])
      ∷ in_turn (while_end 1 true (some true) 2) false two_children
answers-while_example =
    answers-while 1 true (some true) first_child (second_child ∷ []) (omega arith)
      (λ e. omega arith)
      (
        record { goes_on = (refl, (refl, tt)); ends = refl },
        (record { goes_on = (refl, tt); ends = refl }, tt),
      )

reports-send_all_example :
    reports
      (send_all true (started ∷ stopped ∷ returned (some success) ∷ failed ∷ []) new_processor)
    ≡ error_status_event ∷ []
reports-send_all_example =
    reports-send_all true (started ∷ stopped ∷ returned (some success) ∷ failed ∷ [])

-- Processor's step `n` adds one to the world and fails if the number is 9; condition `n` is that
-- the world is below `n`.
abbrev counting : Env ℕ
counting = record {
  process_step = λ n w. (w + 1, if ltb n 9 then returns (some success) else fails);
  evaluate = λ n w. some (ltb w n);
  set_counter = λ n v w. w + 10 * pos_part v;
  iteration_limit = 3;
}

-- A loop that its limit does not reach, a foreach step from -1 to 1, an if step, and a repeat
-- step that fails.
abbrev counted : Step
counted = group (
    while_step 2 (process 1 ⨾ finish)
    ⨾ for_each 1 (record { start = negsuc 0; end = pos 2 }) (process 1 ⨾ finish)
    ⨾ if_step 1 (process 9 ⨾ finish) (process 2 ⨾ finish)
    ⨾ repeat_step 17 (process 9 ⨾ finish)
    ⨾ finish)

run_step-do_step_example : run_step counting counted 0 ≡ do_step counting counted 0
run_step-do_step_example = run_step-do_step counting counted 0

counted_run : run_step counting counted 0 ≡ some (17, ends_error)
unfolding run_step
counted_run = refl

-- A loop whose condition always holds is ended by the limit after four iterations.
endless_run : run_step counting (while_step 100 (process 1 ⨾ finish)) 0 ≡ some (4, ends_exception)
unfolding run_step
endless_run = refl

-- An if step whose branch has no step never tells an end.
empty_branch_run : run_step counting (if_step 1 finish (process 1 ⨾ finish)) 0 ≡ none
unfolding run_step
empty_branch_run = refl

run_step-Returns_example : Returns (run_step counting counted) 0
unfolding IsFilled AllFilled
run_step-Returns_example =
    run_step-Returns counting counted 0
      (tt, ((tt, (tt, tt)), ((tt, (tt, tt)), ((tt, (tt, tt), tt, (tt, tt)), ((tt, (tt, tt)), tt)))))
