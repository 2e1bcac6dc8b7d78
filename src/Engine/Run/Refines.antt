-- ===== src/Engine/Run/Refines.antt =====
-- The actors of a test do what the plain meaning of its steps says, and their steps end.
use mathlib.Core.Path.{fun_ext}
use gitb.Base.{
  pos_part, ℕ, suc, Bool, true, false, Option, none, some, List, [], ◌∷◌, ◌≡◌, refl, ap, ap₂, ◌∙◌,
}
use gitb.Engine.{success, failure, undefined, on_receive, update_status}
use gitb.Engine.Branch.{If, new_if, if_receive, if_start, start_branch, if_handle_status_event}
use gitb.Engine.Processor.{new_processor, step, try_resolve}
use gitb.Engine.Run.{
  input_of, event_of, Ending, ends_completed, ends_error, ends_exception, reaction, Step, process,
  group, if_step, while_step, repeat_step, for_each, Steps, finish, ◌⨾◌, Processed, returns, fails,
  Run, Env, drive, branch_of, run_sequence, run_if, run_processor, run_step, run_each,
}
use gitb.Engine.Run.Plain.{
  told, ending_of, choose, do_all, do_while, do_repeat, do_for_each, do_step, do_each,
}
use gitb.Engine.Run.Sequences.{and_then_ext, run_sequence-do_all}
use gitb.Engine.Run.Loops.{run_while-do_while}
use gitb.Engine.ForEach.{range_size}
use gitb.Engine.Run.ForEachs.{run_for_each-do_for_each}
use gitb.Engine.Run.Repeats.{run_repeat-do_repeat}

module _ {W : Type 0} where
  run_processor_lem :
      (work : W → W × Processed) (w : W)
      → run_processor work w ≡ some ((work w).0, ending_of (work w).1)
  unfolding run_processor drive reaction step try_resolve update_status
  run_processor_lem work w = by_result (work w).1
    where
      by_result :
          (p : Processed)
          → drive
              (λ u e w'' s'. (s', []))
              (λ s' u w''. none)
              1
              (work w).0
              (step true (input_of p) new_processor)
            ≡ some ((work w).0, ending_of p)
      by_result fails = refl
      by_result (returns none) = refl
      by_result (returns (some success)) = refl
      by_result (returns (some failure)) = refl
      by_result (returns (some undefined)) = refl

  -- The end of a branch is told on.
  branch_ends :
      (child : If → ℕ → Run W) (s : If) (w : W) (x : Ending)
      → drive (λ u event w' s'. if_receive true event s') child 1 w (if_receive true (event_of x) s)
        ≡ some (w, told x)
  unfolding drive reaction update_status on_receive if_handle_status_event
  branch_ends child s w ends_completed = refl
  branch_ends child s w ends_error = refl
  branch_ends child s w ends_exception = refl

  run_if-choose :
      (condition : W → Option Bool) (t e : Run W) (w : W)
      → run_if condition t e w ≡ choose t e (condition w) w
  unfolding run_if if_start drive reaction update_status on_receive
  run_if-choose condition t e w = by_value (condition w)
    where
      by_value :
          (x : Option Bool)
          → (let (s, ms) = on_receive true (start_branch true 0 new_if x) in
              drive
                (λ u event w' s'. if_receive true event s')
                (λ s' u. branch_of t e s'.branch)
                2
                w
                (s, ms))
            ≡ choose t e x w
      by_value none = refl
      by_value (some true) = and_then_ext (t w) λ w' x.
          let s = (on_receive true (start_branch true 0 new_if (some true))).0 in
          branch_ends (λ s' u. branch_of t e s'.branch) s w' x
      by_value (some false) = and_then_ext (e w) λ w' x.
          let s = (on_receive true (start_branch true 0 new_if (some false))).0 in
          branch_ends (λ s' u. branch_of t e s'.branch) s w' x

sequence_lem : {W : Type 0} (rs rs' : List (Run W)) → rs ≡ rs' → run_sequence rs ≡ do_all rs'
sequence_lem rs rs' e = fun_ext (λ w. run_sequence-do_all rs w ∙ ap (λ x. do_all x w) e)

module _ {W : Type 0} (env : Env W) where
  mutual
    unfolding run_step run_each do_step do_each

    step_lem : (s : Step) (w : W) → run_step env s w ≡ do_step env s w
    step_lem (process p) w = run_processor_lem (env.process_step p) w
    step_lem (group b) w =
        ap (λ r. r w) (sequence_lem (run_each env b) (do_each env b) (each_lem b))
    step_lem (if_step c t e) w =
        run_if-choose (env.evaluate c) (run_sequence (run_each env t))
          (run_sequence (run_each env e)) w
        ∙ ap₂ (λ x y. choose x y (env.evaluate c w) w)
            (sequence_lem (run_each env t) (do_each env t) (each_lem t))
            (sequence_lem (run_each env e) (do_each env e) (each_lem e))
    step_lem (while_step c b) w =
        run_while-do_while env.iteration_limit (env.evaluate c) (run_sequence (run_each env b)) w
        ∙ ap (λ x. do_while (env.evaluate c) x (suc env.iteration_limit) false w)
            (sequence_lem (run_each env b) (do_each env b) (each_lem b))
    step_lem (repeat_step c b) w =
        run_repeat-do_repeat env.iteration_limit (env.evaluate c) (run_sequence (run_each env b)) w
        ∙ ap (λ x. do_repeat (env.evaluate c) x env.iteration_limit false w)
            (sequence_lem (run_each env b) (do_each env b) (each_lem b))
    step_lem (for_each c r b) w =
        run_for_each-do_for_each env.iteration_limit r (env.set_counter c)
          (run_sequence (run_each env b)) w
        ∙ ap
            (λ x.
              do_for_each r (env.set_counter c) x (suc env.iteration_limit)
                (pos_part (range_size r)) 0 false w)
            (sequence_lem (run_each env b) (do_each env b) (each_lem b))

    each_lem : (b : Steps) → run_each env b ≡ do_each env b
    each_lem finish = refl
    each_lem (s ⨾ b) = ap₂ (λ r rs. r ∷ rs) (fun_ext (step_lem s)) (each_lem b)

-- The actors of a step execute it as its plain meaning says, with the same world and the same end,
-- or without ever telling an end where the meaning has none: the steps of a group are done in
-- order, all of them, and the group ends with ERROR if one of them failed; an if step does the
-- branch that its condition names; a while step does its steps as long as the condition holds
-- before them, a repeat step as long as it holds after them, and a foreach step for each value of its
-- counter from the start to before the end, all within the limit of iterations;
-- an exception of a condition or of the limit ends the step. The step is any tree of
-- processor's steps, groups, if, while, repeat and foreach steps, and the processors and the conditions
-- are any functions of the world.
pub run_step-do_step :
    {W : Type 0} (env : Env W) (s : Step) (w : W) → run_step env s w ≡ do_step env s w
run_step-do_step env s w = step_lem env s w
