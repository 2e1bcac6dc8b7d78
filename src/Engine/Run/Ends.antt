-- ===== src/Engine/Run/Ends.antt =====
-- The steps of a test end, if no sequence in it is empty.
use gitb.Engine.ForEach.{Range, range_size, counter_at}
use gitb.Base.{
  ℤ, pos_part, ℕ, zero, suc, Bool, true, false, ◌||◌, Option, none, some, List, [], ◌∷◌, All, ◌≡◌,
  refl, ◌∙◌,
}
use gitb.Engine.Run.{
  Ending, ends_exception, Step, process, group, if_step, while_step, repeat_step, for_each, Steps,
  finish, ◌⨾◌, Run, Env, and_then, run_step,
}
use gitb.Engine.Run.Plain.{
  is_failure, verdict, told, do_rest, do_all, choose, on_condition, do_while, do_repeat,
  do_for_each, do_step, do_each,
}
use gitb.Engine.Run.Refines.{run_step-do_step}

abbrev pub IsNonempty : Steps → Type 0
IsNonempty finish = ⊥
IsNonempty (s ⨾ b) = Unit

-- No sequence of a step is empty, as the schema of tests, gitb_tdl.xsd, asks.
unfoldable mutual
  pub IsFilled : Step → Type 0
  IsFilled (process p) = Unit
  IsFilled (group b) = IsNonempty b × AllFilled b
  IsFilled (if_step c t e) = IsNonempty t × AllFilled t × IsNonempty e × AllFilled e
  IsFilled (while_step c b) = IsNonempty b × AllFilled b
  IsFilled (repeat_step c b) = IsNonempty b × AllFilled b
  IsFilled (for_each c r b) = IsNonempty b × AllFilled b

  pub AllFilled : Steps → Type 0
  AllFilled finish = Unit
  AllFilled (s ⨾ b) = IsFilled s × AllFilled b

-- A run tells an end.
abbrev pub Returns : {W : Type 0} → Run W → W → Type 0
Returns {W} r w = (x : W × Ending) × (r w ≡ some x)

module _ {W : Type 0} where
  and_then-Returns :
      (o : Option (W × Ending)) (k : W → Ending → Option (W × Ending))
      → ((x : W × Ending) × (o ≡ some x))
      → ((w : W) (e : Ending) → (x : W × Ending) × (k w e ≡ some x))
      → (x : W × Ending) × (and_then o k ≡ some x)
  and_then-Returns none k h g = cc h.1
  and_then-Returns (some (w, e)) k h g = g w e

  do_rest-Returns :
      (failed : Bool) (rs : List (Run W))
      → All (λ r. (w : W) → Returns r w) rs
      → (w : W) → Returns (do_rest failed rs) w
  do_rest-Returns failed [] h w = ((w, verdict failed), refl)
  do_rest-Returns failed (r ∷ rs) h w =
      and_then-Returns (r w) _ (h.0 w) λ w' e. do_rest-Returns (failed || is_failure e) rs h.1 w'

  on_condition-Returns :
      (again over : Run W) (x : Option Bool) (w : W)
      → Returns again w
      → Returns over w
      → Returns (on_condition again over x) w
  on_condition-Returns again over none w a o = ((w, ends_exception), refl)
  on_condition-Returns again over (some true) w a o = a
  on_condition-Returns again over (some false) w a o = o

  module _ (condition : W → Option Bool) (body : Run W) (h : (w : W) → Returns body w) where
    do_while-Returns :
        (n : ℕ) (failed : Bool) (w : W) → Returns (do_while condition body n failed) w
    do_while-Returns zero failed w = ((w, ends_exception), refl)
    do_while-Returns (suc n) failed w =
        on_condition-Returns _ _ (condition w) w
          (and_then-Returns (body w) _ (h w) λ w' e. do_while-Returns n (failed || is_failure e) w')
          ((w, verdict failed), refl)

    do_repeat-Returns :
        (n : ℕ) (failed : Bool) (w : W) → Returns (do_repeat condition body n failed) w
    do_repeat-Returns zero failed w = and_then-Returns (body w) _ (h w) λ w' e.
        on_condition-Returns _ _ (condition w') w' ((w', ends_exception), refl)
          ((w', verdict (failed || is_failure e)), refl)
    do_repeat-Returns (suc n) failed w = and_then-Returns (body w) _ (h w) λ w' e.
        on_condition-Returns _ _ (condition w') w' (do_repeat-Returns n (failed || is_failure e) w')
          ((w', verdict (failed || is_failure e)), refl)

  do_for_each-Returns :
      (r : Range) (set : ℤ → W → W) (body : Run W)
      → ((w : W) → Returns body w)
      → (n k i : ℕ) (failed : Bool) (w : W) → Returns (do_for_each r set body n k i failed) w
  do_for_each-Returns r set body h zero k i failed w = ((w, ends_exception), refl)
  do_for_each-Returns r set body h (suc n) zero i failed w = ((w, verdict failed), refl)
  do_for_each-Returns r set body h (suc n) (suc k) i failed w =
      and_then-Returns (body (set (counter_at r i) w)) _ (h (set (counter_at r i) w))
        λ w' e. do_for_each-Returns r set body h n k (suc i) (failed || is_failure e) w'

  choose-Returns :
      (t e : Run W) (x : Option Bool) (w : W)
      → ((w' : W) → Returns t w')
      → ((w' : W) → Returns e w')
      → Returns (choose t e x) w
  choose-Returns t e none w ht he = ((w, ends_exception), refl)
  choose-Returns t e (some true) w ht he =
      and_then-Returns (t w) _ (ht w) λ w' x. ((w', told x), refl)
  choose-Returns t e (some false) w ht he =
      and_then-Returns (e w) _ (he w) λ w' x. ((w', told x), refl)

module _ {W : Type 0} (env : Env W) where
  do_all-Returns :
      (b : Steps)
      → IsNonempty b
      → All (λ r. (w : W) → Returns r w) (do_each env b)
      → (w : W) → Returns (do_all (do_each env b)) w
  unfolding do_each
  do_all-Returns finish n h w = absurd n
  do_all-Returns (s ⨾ b) n h w = do_rest-Returns false (do_each env (s ⨾ b)) h w

  mutual
    unfolding do_step do_each IsFilled AllFilled

    do_step-Returns : (s : Step) → IsFilled s → (w : W) → Returns (do_step env s) w
    do_step-Returns (process p) h w = (_, refl)
    do_step-Returns (group b) h w = do_all-Returns b h.0 (do_each-Returns b h.1) w
    do_step-Returns (if_step c t e) h w =
        choose-Returns _ _ (env.evaluate c w) w (do_all-Returns t h.0 (do_each-Returns t h.1))
          (do_all-Returns e h.2 (do_each-Returns e h.3))
    do_step-Returns (while_step c b) h w =
        do_while-Returns (env.evaluate c) _ (do_all-Returns b h.0 (do_each-Returns b h.1))
          (suc env.iteration_limit) false w
    do_step-Returns (repeat_step c b) h w =
        do_repeat-Returns (env.evaluate c) _ (do_all-Returns b h.0 (do_each-Returns b h.1))
          env.iteration_limit false w
    do_step-Returns (for_each c r b) h w =
        do_for_each-Returns r (env.set_counter c) _ (do_all-Returns b h.0 (do_each-Returns b h.1))
          (suc env.iteration_limit) (pos_part (range_size r)) 0 false w

    do_each-Returns : (b : Steps) → AllFilled b → All (λ r. (w : W) → Returns r w) (do_each env b)
    do_each-Returns finish h = tt
    do_each-Returns (s ⨾ b) h = (do_step-Returns s h.0, do_each-Returns b h.1)

-- A step in which no sequence is empty always tells its end when its actors execute it, whatever
-- the processors and the conditions do, with the fuel that the execution is given: an iteration
-- that goes on is ended by the limit.
pub run_step-Returns :
    {W : Type 0} (env : Env W) (s : Step) (w : W) → IsFilled s → Returns (run_step env s) w
run_step-Returns env s w h =
    let r = do_step-Returns env s h w in (r.0, run_step-do_step env s w ∙ r.1)
