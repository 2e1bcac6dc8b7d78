-- ===== src/Engine/Run/Loops.antt =====
-- A while or repeat actor does what the plain meaning of its step says.
use gitb.Base.{
  ℕ, zero, suc, ◌+◌, Bool, true, false, ◌||◌, Option, none, some, List, [], ◌∷◌, ltb, if_true,
  if_false, ◌≡◌, refl, ap, ◌∙◌, arith,
}
use gitb.Engine.{
  StatusEvent, Message, start_child, tell_completed, Turn, turn, throws, on_receive, update_status,
}
use gitb.Engine.Children.{ends_thread}
use gitb.Engine.Loop.{
  handle_status_event, World, Loop, new_loop, tell_verdict, by_condition, while_loop, while_next,
  while_start, while_receive, after_processing,
}
use gitb.Engine.Loop.Rounds.{running, handle_ends}
use gitb.Engine.Run.{
  Ending, ends_completed, ends_error, ends_exception, event_of, reaction, Run, and_then, drive,
  world_at, run_while,
}
use gitb.Engine.Run.Plain.{is_failure, verdict, on_condition, do_while}
use gitb.Engine.Run.Sequences.{and_then_ext, is_error_of_event}

ends_thread_of_event : (e : Ending) → ends_thread (event_of e) ≡ true
ends_thread_of_event ends_completed = refl
ends_thread_of_event ends_error = refl
ends_thread_of_event ends_exception = refl

-- What a loop answers to the end of an iteration.
pub receive_event :
    (next : ℕ → Loop → Turn Loop) (e : Ending) (u i : ℕ) (its : List (ℕ × ℕ)) (b : Bool)
    → handle_status_event next u (event_of e) (running u i its b)
      ≡ next i (running u i its (b || is_failure e))
receive_event next e u i its b =
    handle_ends next u i (event_of e) its b (ends_thread_of_event e)
    ∙ ap (λ x. next i (running u i its (b || x))) (is_error_of_event e)

module _ {W : Type 0} where
  -- A loop that has told its verdict, or an exception.
  pub drive-verdict :
      (receive : ℕ → StatusEvent → W → Loop → Loop × List Message) (child : Loop → ℕ → Run W)
      (f : ℕ) (w : W) (u i : ℕ) (its : List (ℕ × ℕ)) (b : Bool)
      → drive receive child (suc f) w (running u i its b, tell_verdict true (running u i its b))
        ≡ some (w, verdict b)
  unfolding drive reaction update_status
  drive-verdict receive child f w u i its true = refl
  drive-verdict receive child f w u i its false = refl

module _ {W : Type 0} (limit : ℕ) (condition : W → Option Bool) (body : Run W) where
  abbrev while_answer : ℕ → StatusEvent → W → Loop → Loop × List Message
  while_answer u e w l = while_receive limit true (u, e, world_at condition w l) l

  abbrev drive_while : ℕ → W → Loop × List Message → Option (W × Ending)
  drive_while = drive while_answer (λ l u. body)

  abbrev while_over : Loop → Turn Loop
  while_over l = turn l (tell_verdict true l)

  while_exceeds :
      (w : W) (l : Loop) (v : World) (i : ℕ)
      → ltb limit (suc i) ≡ true
      → drive_while 1 w (on_receive true (while_next limit true v i l)) ≡ some (w, ends_exception)
  unfolding drive reaction on_receive while_next while_loop
  while_exceeds w l v i h =
      ap (λ t. drive_while 1 w (on_receive true t))
        (if_true (ltb limit (suc i)) (throws l [])
          (by_condition limit true turn while_over (suc i) v l v.condition) h)

  while_goes_on :
      (n u i : ℕ) (its : List (ℕ × ℕ)) (b : Bool) (w : W) (v : World)
      → ltb limit (suc i) ≡ false
      → ((u' : ℕ) (its' : List (ℕ × ℕ))
          → drive_while (suc (suc n)) w (running u' (suc i) its' b, start_child u' ∷ [])
            ≡ and_then (body w) (λ w' e. do_while condition body n (b || is_failure e) w'))
      → v.condition ≡ condition w
      → drive_while
          (suc (suc n))
          w
          (on_receive true (while_next limit true v i (running u i its b)))
        ≡ do_while condition body (suc n) b w
  unfolding on_receive while_next while_loop drive reaction update_status
  while_goes_on n u i its b w v h again c =
      ap (λ t. drive_while (suc (suc n)) w (on_receive true t))
        (if_false (ltb limit (suc i)) (throws (running u i its b) [])
          (by_condition limit true turn while_over (suc i) v (running u i its b) v.condition) h)
      ∙ by_value v.condition
      ∙ ap (λ x. on_condition next_round (λ w'. some (w', verdict b)) x w) c
    where
      next_round : Run W
      next_round w' =
          and_then (body w') (λ w'' e. do_while condition body n (b || is_failure e) w'')

      by_value :
          (x : Option Bool)
          → drive_while (suc (suc n)) w (
              on_receive true
                (by_condition limit true turn while_over (suc i) v (running u i its b) x))
            ≡ on_condition next_round (λ w'. some (w', verdict b)) x w
      by_value none = refl
      by_value (some true) = again v.fresh ((u, i) ∷ its)
      by_value (some false) = drive-verdict while_answer (λ l u'. body) (suc n) w u i its b

  -- The child that was started is run.
  drive_start :
      (f i u : ℕ) (its : List (ℕ × ℕ)) (b : Bool) (w : W)
      → drive_while (suc f) w (running u i its b, start_child u ∷ [])
        ≡ and_then (body w) (λ w' e. drive_while f w' (
            while_receive limit true
              (u, event_of e, world_at condition w' (running u i its b))
              (running u i its b)))
  unfolding drive reaction
  drive_start f i u its b w = refl

  while_rounds :
      (n i u : ℕ) (its : List (ℕ × ℕ)) (b : Bool) (w : W)
      → i + n ≡ limit
      → drive_while (suc (suc n)) w (running u i its b, start_child u ∷ [])
        ≡ and_then (body w) (λ w' e. do_while condition body n (b || is_failure e) w')
  unfolding while_receive on_receive
  while_rounds zero i u its b w h =
      drive_start 1 i u its b w
      ∙ and_then_ext (body w) λ w' e.
        ap (λ t. drive_while 1 w' (on_receive true t))
          (receive_event (while_next limit true (world_at condition w' (running u i its b))) e u i
            its b)
        ∙ while_exceeds w' (running u i its (b || is_failure e)) _ i (ground arith)
  while_rounds (suc n) i u its b w h =
      drive_start (suc (suc n)) i u its b w
      ∙ and_then_ext (body w) λ w' e.
        ap (λ t. drive_while (suc (suc n)) w' (on_receive true t))
          (receive_event (while_next limit true (world_at condition w' (running u i its b))) e u i
            its b)
        ∙ while_goes_on n u i its (b || is_failure e) w' _ (ground arith)
            (λ u' its'. while_rounds n (suc i) u' its' (b || is_failure e) w' (omega arith)) refl

  pub run_while-do_while :
      (w : W) → run_while limit condition body w ≡ do_while condition body (suc limit) false w
  unfolding run_while while_start while_loop drive reaction update_status on_receive
  run_while-do_while w =
      ap (λ t. drive_while (suc (suc limit)) w (on_receive true (after_processing limit true t)))
        (if_false (ltb limit 0) (throws new_loop [])
          (by_condition limit true turn (λ l'. turn l' (tell_completed true)) 0 first new_loop
            first.condition)
          (ground arith))
      ∙ by_value (condition w)
    where
      first : World
      first = world_at condition w new_loop

      next_round : Run W
      next_round w' = and_then (body w') (λ w'' e. do_while condition body limit (is_failure e) w'')

      by_value :
          (x : Option Bool)
          → drive_while (suc (suc limit)) w (
              on_receive true (
                after_processing limit true (
                  by_condition limit true turn
                    (λ l'. turn l' (tell_completed true))
                    0
                    first
                    new_loop
                    x)))
            ≡ on_condition next_round (λ w'. some (w', ends_completed)) x w
      by_value none = refl
      by_value (some true) = while_rounds limit 0 0 [] false w (omega arith)
      by_value (some false) = refl
