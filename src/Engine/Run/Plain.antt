-- ===== src/Engine/Run/Plain.antt =====
-- What the steps of a test mean, said without actors or messages.
use gitb.Engine.ForEach.{Range, range_size, counter_at}
use gitb.Base.{
  ℤ, pos_part, ℕ, zero, suc, Bool, true, false, ◌||◌, Option, none, some, List, [], ◌∷◌,
  if◌then◌else◌,
}
use gitb.Engine.{success}
use gitb.Engine.Run.{
  Ending, ends_completed, ends_error, ends_exception, Step, process, group, if_step, while_step,
  repeat_step, for_each, Steps, finish, ◌⨾◌, Processed, returns, fails, Run, Env, and_then,
}

abbrev pub is_failure : Ending → Bool
is_failure ends_completed = false
is_failure _ = true

abbrev pub verdict : Bool → Ending
verdict failed = if failed then ends_error else ends_completed

-- The end of a branch, as the step tells it.
abbrev pub told : Ending → Ending
told e = verdict (is_failure e)

abbrev pub ending_of : Processed → Ending
ending_of fails = ends_exception
ending_of (returns none) = ends_completed
ending_of (returns (some success)) = ends_completed
ending_of (returns (some _)) = ends_error

module _ {W : Type 0} where
  -- All the steps are done, whether or not one fails, and it is an error if one has failed.
  abbrev pub do_rest : Bool → List (Run W) → Run W
  do_rest failed [] w = some (w, verdict failed)
  do_rest failed (r ∷ rs) w = and_then (r w) (λ w' e. do_rest (failed || is_failure e) rs w')

  -- The end of an empty sequence is never told.
  abbrev pub do_all : List (Run W) → Run W
  do_all [] w = none
  do_all (r ∷ rs) w = do_rest false (r ∷ rs) w

  abbrev pub choose : Run W → Run W → Option Bool → Run W
  choose t e none w = some (w, ends_exception)
  choose t e (some true) w = and_then (t w) (λ w' x. some (w', told x))
  choose t e (some false) w = and_then (e w) (λ w' x. some (w', told x))

  abbrev pub on_condition : Run W → Run W → Option Bool → Run W
  on_condition again over none w = some (w, ends_exception)
  on_condition again over (some true) w = again w
  on_condition again over (some false) w = over w

  -- `n` iterations are allowed.
  abbrev pub do_while : (W → Option Bool) → Run W → ℕ → Bool → Run W
  do_while condition body zero failed w = some (w, ends_exception)
  do_while condition body (suc n) failed w =
      on_condition
        (λ w'. and_then (body w') (λ w'' e. do_while condition body n (failed || is_failure e) w''))
        (λ w'. some (w', verdict failed)) (condition w) w

  -- `n` iterations are allowed after the first.
  abbrev pub do_repeat : (W → Option Bool) → Run W → ℕ → Bool → Run W
  do_repeat condition body zero failed w = and_then (body w) (λ w' e.
      on_condition (λ w''. some (w'', ends_exception))
        (λ w''. some (w'', verdict (failed || is_failure e))) (condition w') w')
  do_repeat condition body (suc n) failed w = and_then (body w) (λ w' e.
      on_condition (do_repeat condition body n (failed || is_failure e))
        (λ w''. some (w'', verdict (failed || is_failure e))) (condition w') w')

module _ {W : Type 0} (r : Range) (set : ℤ → W → W) (body : Run W) where
  -- `n` iterations are allowed, and `k` are left from number `i` on.
  abbrev pub do_for_each : ℕ → ℕ → ℕ → Bool → Run W
  do_for_each zero k i failed w = some (w, ends_exception)
  do_for_each (suc n) zero i failed w = some (w, verdict failed)
  do_for_each (suc n) (suc k) i failed w =
      and_then (body (set (counter_at r i) w))
        (λ w' e. do_for_each n k (suc i) (failed || is_failure e) w')

module _ {W : Type 0} (env : Env W) where
  unfoldable mutual
    pub do_step : Step → Run W
    do_step (process p) w = let (w', x) = env.process_step p w in some (w', ending_of x)
    do_step (group b) w = do_all (do_each b) w
    do_step (if_step c t e) w =
        choose (do_all (do_each t)) (do_all (do_each e)) (env.evaluate c w) w
    do_step (while_step c b) w =
        do_while (env.evaluate c) (do_all (do_each b)) (suc env.iteration_limit) false w
    do_step (repeat_step c b) w =
        do_repeat (env.evaluate c) (do_all (do_each b)) env.iteration_limit false w
    do_step (for_each c r b) w =
        do_for_each r (env.set_counter c) (do_all (do_each b)) (suc env.iteration_limit)
          (pos_part (range_size r)) 0 false w

    pub do_each : Steps → List (Run W)
    do_each finish = []
    do_each (s ⨾ b) = do_step s ∷ do_each b
