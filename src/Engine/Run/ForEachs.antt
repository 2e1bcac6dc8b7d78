-- ===== src/Engine/Run/ForEachs.antt =====
-- A foreach actor does what the plain meaning of its step says.
use gitb.Base.{
  ℕ, zero, suc, ◌+◌, Bool, true, false, ◌||◌, Option, some, List, [], ◌∷◌, ltb, ℤ, pos, negsuc,
  pos_part, ltb_ℤ, if_true, if_false, ◌≡◌, refl, ap, ◌∙◌, sym, arith,
}
use gitb.Engine.{
  Message, start_child, Turn, turn, throws, tell_completed, on_receive, update_status,
}
use gitb.Engine.ForEach.{
  Range, ForEach, range_size, counter_at, for_each_loop, for_each_start, started, finish_for_each,
  handle_status_event, receive,
}
use gitb.Engine.Run.{
  Ending, ends_completed, ends_error, ends_exception, event_of, reaction, Run, and_then, drive,
  run_for_each,
}
use gitb.Engine.Run.Plain.{is_failure, verdict, do_for_each}
use gitb.Engine.Run.Sequences.{and_then_ext}

ltb_pos : (i : ℕ) (z : ℤ) → ltb_ℤ (pos i) z ≡ ltb i (pos_part z)
ltb_pos i (pos n) = ground arith
ltb_pos i (negsuc n) = ground arith

or_true : (b : Bool) → (b || true) ≡ true
or_true b = ground arith

or_false : (b : Bool) → (b || false) ≡ b
or_false b = ground arith

-- `i` iterations have been started.
abbrev at : ℕ → Bool → ℤ → ForEach
at i b c = record { iteration = i; children_has_error = b; counter = c }

module _ (limit : ℕ) (r : Range) where
  loop_exceeds :
      (finish : ForEach → Turn ForEach) (fresh i : ℕ) (b : Bool) (c : ℤ)
      → ltb limit i ≡ true
      → for_each_loop limit r true finish fresh (at i b c) ≡ throws (at i b c) []
  unfolding for_each_loop
  loop_exceeds finish fresh i b c h = if_true (ltb limit i) _ _ h

  loop_ends :
      (finish : ForEach → Turn ForEach) (fresh i : ℕ) (b : Bool) (c : ℤ)
      → ltb limit i ≡ false
      → ltb i (pos_part (range_size r)) ≡ false
      → for_each_loop limit r true finish fresh (at i b c) ≡ finish (at i b c)
  unfolding for_each_loop
  loop_ends finish fresh i b c h e =
      if_false (ltb limit i) _ _ h
      ∙ if_false (ltb_ℤ (pos i) (range_size r)) _ _ (ltb_pos i (range_size r) ∙ e)

  loop_starts :
      (finish : ForEach → Turn ForEach) (fresh i : ℕ) (b : Bool) (c : ℤ)
      → ltb limit i ≡ false
      → ltb i (pos_part (range_size r)) ≡ true
      → for_each_loop limit r true finish fresh (at i b c)
        ≡ turn (at (suc i) b (counter_at r i)) (start_child fresh ∷ [])
  unfolding for_each_loop
  loop_starts finish fresh i b c h e =
      if_false (ltb limit i) _ _ h
      ∙ if_true (ltb_ℤ (pos i) (range_size r)) _ _ (ltb_pos i (range_size r) ∙ e)

  with_flag :
      (fresh i : ℕ) (c : ℤ) {b b' : Bool}
      → b ≡ b'
      → on_receive true (for_each_loop limit r true (finish_for_each limit r true) fresh (at i b c))
        ≡ on_receive true
            (for_each_loop limit r true (finish_for_each limit r true) fresh (at i b' c))
  with_flag fresh i c e =
      ap
        (λ x.
          on_receive true
            (for_each_loop limit r true (finish_for_each limit r true) fresh (at i x c)))
        e

  receive_event :
      (e : Ending) (fresh i : ℕ) (b : Bool) (c : ℤ)
      → receive limit r true (event_of e) fresh (at i b c)
        ≡ on_receive true (
            for_each_loop limit r true
              (finish_for_each limit r true)
              fresh
              (at i (b || is_failure e) c))
  unfolding receive handle_status_event
  receive_event ends_completed fresh i b c = with_flag fresh i c (sym (or_false b))
  receive_event ends_error fresh i b c = with_flag fresh i c (sym (or_true b))
  receive_event ends_exception fresh i b c = with_flag fresh i c (sym (or_true b))

module _ {W : Type 0} (limit : ℕ) (r : Range) (set : ℤ → W → W) (body : Run W) where
  abbrev drive_for_each : ℕ → W → ForEach × List Message → Option (W × Ending)
  drive_for_each =
      drive (λ u e w' f. receive limit r true e f.iteration f) (λ f u w'. body (set f.counter w'))

  drive-finish :
      (n i : ℕ) (b : Bool) (c : ℤ) (w : W)
      → drive_for_each (suc n) w (on_receive true (finish_for_each limit r true (at i b c)))
        ≡ some (w, verdict b)
  unfolding drive reaction on_receive update_status
  drive-finish n i true c w = refl
  drive-finish n i false c w = refl

  -- The child that was started is run, with the counter set, and its end received.
  drive_start :
      (n i u : ℕ) (b : Bool) (c : ℤ) (w : W)
      → drive_for_each (suc n) w (at i b c, start_child u ∷ [])
        ≡ and_then (body (set c w)) (λ w' e. drive_for_each n w' (
            on_receive true (
              for_each_loop limit r true
                (finish_for_each limit r true)
                i
                (at i (b || is_failure e) c))))
  unfolding drive reaction
  drive_start n i u b c w =
      and_then_ext (body (set c w))
        λ w' e. ap (drive_for_each n w') (receive_event limit r e i i b c)

  rounds :
      (n k i u : ℕ) (b : Bool) (c : ℤ) (w : W)
      → i + n ≡ suc limit
      → i + k ≡ pos_part (range_size r)
      → drive_for_each
          (suc n)
          w
          (on_receive true (for_each_loop limit r true (finish_for_each limit r true) u (at i b c)))
        ≡ do_for_each r set body n k i b w
  unfolding drive reaction on_receive update_status
  rounds zero k i u b c w h g =
      ap (λ t. drive_for_each 1 w (on_receive true t))
        (loop_exceeds limit r _ u i b c (ground arith))
  rounds (suc n) zero i u b c w h g =
      ap (λ t. drive_for_each (suc (suc n)) w (on_receive true t))
        (loop_ends limit r _ u i b c (ground arith) (ground arith))
      ∙ drive-finish (suc n) i b c w
  rounds (suc n) (suc k) i u b c w h g =
      ap (λ t. drive_for_each (suc (suc n)) w (on_receive true t))
        (loop_starts limit r _ u i b c (ground arith) (ground arith))
      ∙ drive_start (suc n) (suc i) u b (counter_at r i) w
      ∙ and_then_ext (body (set (counter_at r i) w)) λ w' e.
        rounds n k (suc i) (suc i) (b || is_failure e) (counter_at r i) w' (omega arith)
          (omega arith)

  abbrev at_once : ForEach → Turn ForEach
  at_once f = turn f (tell_completed true)

  from_start :
      (k : ℕ) (w : W)
      → k ≡ pos_part (range_size r)
      → run_for_each limit r set body w ≡ do_for_each r set body (suc limit) k 0 false w
  unfolding run_for_each for_each_start drive reaction on_receive update_status
  from_start zero w g =
      ap (λ t. drive_for_each (suc (suc limit)) w (on_receive true (started limit r true t)))
        (loop_ends limit r at_once 0 0 false r.start (ground arith) (ground arith))
  from_start (suc k) w g =
      ap (λ t. drive_for_each (suc (suc limit)) w (on_receive true (started limit r true t)))
        (loop_starts limit r at_once 0 0 false r.start (ground arith) (ground arith))
      ∙ drive_start (suc limit) 1 0 false (counter_at r 0) w
      ∙ and_then_ext (body (set (counter_at r 0) w))
          λ w' e. rounds limit k 1 1 (is_failure e) (counter_at r 0) w' (omega arith) (omega arith)

  pub run_for_each-do_for_each :
      (w : W)
      → run_for_each limit r set body w
        ≡ do_for_each r set body (suc limit) (pos_part (range_size r)) 0 false w
  run_for_each-do_for_each w = from_start (pos_part (range_size r)) w refl
