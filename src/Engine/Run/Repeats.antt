-- ===== src/Engine/Run/Repeats.antt =====
-- A repeat actor does what the plain meaning of its step says.
use gitb.Base.{
  ℕ, zero, suc, ◌+◌, Bool, true, false, ◌||◌, Option, none, some, List, [], ◌∷◌, ltb, if_true,
  if_false, ◌≡◌, refl, ap, ◌∙◌, arith,
}
use gitb.Engine.{StatusEvent, Message, start_child, turn, throws, on_receive, update_status}
use gitb.Engine.Loop.{
  World, Loop, start_iteration, repeat_by, repeat_next, repeat_start, repeat_receive,
}
use gitb.Engine.Loop.Rounds.{running}
use gitb.Engine.Run.{Ending, ends_exception, reaction, Run, and_then, drive, world_at, run_repeat}
use gitb.Engine.Run.Plain.{is_failure, verdict, on_condition, do_repeat}
use gitb.Engine.Run.Sequences.{and_then_ext}
use gitb.Engine.Run.Loops.{receive_event, drive-verdict}

module _ {W : Type 0} (limit : ℕ) (condition : W → Option Bool) (body : Run W) where
  abbrev answer : ℕ → StatusEvent → W → Loop → Loop × List Message
  answer u e w l = repeat_receive limit true (u, e, world_at condition w l) l

  abbrev drive_repeat : ℕ → W → Loop × List Message → Option (W × Ending)
  drive_repeat = drive answer (λ l u. body)

  abbrev over : Bool → Run W
  over b w = some (w, verdict b)

  -- What follows an iteration, where `again` follows a condition that holds.
  after_round :
      (f u i : ℕ) (its : List (ℕ × ℕ)) (b : Bool) (w : W) (v : World) (again : Run W)
      (x : Option Bool)
      → drive_repeat
          (suc f)
          w
          (on_receive true (repeat_by limit true v i (running u i its b) (some true)))
        ≡ again w
      → drive_repeat (suc f) w (on_receive true (repeat_by limit true v i (running u i its b) x))
        ≡ on_condition again (over b) x w
  unfolding on_receive drive reaction update_status
  after_round f u i its b w v again none h = refl
  after_round f u i its b w v again (some true) h = h
  after_round f u i its b w v again (some false) h =
      drive-verdict answer (λ l u'. body) f w u i its b

  -- The child that was started is run, and its end received.
  drive_start :
      (f i u : ℕ) (its : List (ℕ × ℕ)) (b : Bool) (w : W)
      → drive_repeat (suc f) w (running u i its b, start_child u ∷ [])
        ≡ and_then (body w) (λ w' e. drive_repeat f w' (
            on_receive true (
              repeat_by limit true
                (world_at condition w' (running u i its b))
                i
                (running u i its (b || is_failure e))
                (condition w'))))
  unfolding drive reaction repeat_receive repeat_next on_receive
  drive_start f i u its b w = and_then_ext (body w) λ w' e.
      ap (λ t. drive_repeat f w' (on_receive true t))
        (receive_event (repeat_next limit true (world_at condition w' (running u i its b))) e u i
          its b)

  repeat_rounds :
      (n i u : ℕ) (its : List (ℕ × ℕ)) (b : Bool) (w : W)
      → i + n ≡ limit
      → drive_repeat (suc (suc n)) w (running u i its b, start_child u ∷ [])
        ≡ do_repeat condition body n b w
  unfolding on_receive drive reaction update_status
  repeat_rounds zero i u its b w h =
      drive_start 1 i u its b w
      ∙ and_then_ext (body w) λ w' e.
        let v = world_at condition w' (running u i its b) in
        after_round 0 u i its (b || is_failure e) w' v (λ w''. some (w'', ends_exception))
          (condition w')
          (ap (λ t. drive_repeat 1 w' (on_receive true t))
            (if_true (ltb limit (suc i)) (throws (running u i its (b || is_failure e)) [])
              (turn (start_iteration (suc i) v (running u i its (b || is_failure e)))
                (start_child v.fresh ∷ []))
              (ground arith)))
  repeat_rounds (suc n) i u its b w h =
      drive_start (suc (suc n)) i u its b w
      ∙ and_then_ext (body w) λ w' e.
        let v = world_at condition w' (running u i its b) in
        after_round (suc n) u i its (b || is_failure e) w' v
          (do_repeat condition body n (b || is_failure e)) (condition w')
          (ap (λ t. drive_repeat (suc (suc n)) w' (on_receive true t))
              (if_false (ltb limit (suc i)) (throws (running u i its (b || is_failure e)) [])
                (turn (start_iteration (suc i) v (running u i its (b || is_failure e)))
                  (start_child v.fresh ∷ []))
                (ground arith))
            ∙ repeat_rounds n (suc i) v.fresh ((u, i) ∷ its) (b || is_failure e) w' (omega arith))

  pub run_repeat-do_repeat :
      (w : W) → run_repeat limit condition body w ≡ do_repeat condition body limit false w
  unfolding run_repeat repeat_start drive reaction update_status on_receive
  run_repeat-do_repeat w = repeat_rounds limit 0 0 [] false w (omega arith)
