-- ===== src/Engine/Run/Sequences.antt =====
-- A sequence actor does what the plain meaning of its steps says.
use gitb.Base.{
  ℕ, suc, ◌<◌, Bool, true, false, ◌||◌, Option, none, some, List, [], ◌∷◌, ◌==◌, All, length,
  get_elem?, ◌≡◌, refl, ap, ap₂, ◌∙◌, arith,
}
use gitb.Engine.{StepStatus, get_status, is_error, Message, on_receive, update_status}
use gitb.Engine.Sequence
use gitb.Engine.Sequence.{index_of, put, has_error}
use gitb.Engine.Children.{Distinct}
use gitb.Engine.Sequence.Places.{StandsAt, Distinct-StandsAt}
use gitb.Engine.Sequence.Statuses.{NoErrorFrom, put-NoErrorFrom-suc, has_error-put}
use gitb.Engine.Sequence.Order.{with_statuses, next_command, receive_end}
use gitb.Engine.Run.{
  Ending, ends_completed, ends_error, ends_exception, event_of, reaction, Run, and_then, drive,
  call, count_from, run_sequence,
}
use gitb.Engine.Run.Plain.{is_failure, do_rest, do_all}

pub is_error_of_event : (e : Ending) → is_error (get_status (event_of e)) ≡ is_failure e
is_error_of_event ends_completed = refl
is_error_of_event ends_error = refl
is_error_of_event ends_exception = refl

ends_step_of_event : (e : Ending) → Sequence.ends_step (get_status (event_of e)) ≡ true
ends_step_of_event ends_completed = refl
ends_step_of_event ends_error = refl
ends_step_of_event ends_exception = refl

-- `n` is below all of the numbers from a greater one on.
count_from_above :
    {W : Type 0} (n k : ℕ) (rs : List (Run W))
    → n < k
    → All (λ v. (n == v) ≡ false) (count_from k rs)
count_from_above n k [] h = tt
count_from_above n k (r ∷ rs) h = (ground arith, count_from_above n (suc k) rs (omega arith))

count_from-Distinct : {W : Type 0} (k : ℕ) (rs : List (Run W)) → Distinct (count_from k rs)
count_from-Distinct k [] = tt
count_from-Distinct k (r ∷ rs) =
    (count_from_above k (suc k) rs (omega arith), count_from-Distinct (suc k) rs)

module _ {W : Type 0} where
  pub and_then_ext :
      (o : Option (W × Ending)) {k k' : W → Ending → Option (W × Ending)}
      → ((w : W) (e : Ending) → k w e ≡ k' w e)
      → and_then o k ≡ and_then o k'
  and_then_ext none h = refl
  and_then_ext (some (w, e)) h = h w e

  -- From `k` on, the children do `rs`.
  abbrev RunsAt : List (Run W) → ℕ → List (Run W) → Type 0
  RunsAt all k [] = Unit
  RunsAt all k (r ∷ rs) = (get_elem? all k ≡ some r) × RunsAt all (suc k) rs

  RunsAt-cons :
      (q : Run W) (all : List (Run W)) (k : ℕ) (rs : List (Run W))
      → RunsAt all k rs
      → RunsAt (q ∷ all) (suc k) rs
  RunsAt-cons q all k [] h = tt
  RunsAt-cons q all k (r ∷ rs) h = (h.0, RunsAt-cons q all (suc k) rs h.1)

  RunsAt-self : (rs : List (Run W)) → RunsAt rs 0 rs
  RunsAt-self [] = tt
  RunsAt-self (r ∷ rs) = (refl, RunsAt-cons r rs 0 rs (RunsAt-self rs))

  abbrev first_of : ℕ → List (Run W) → Option ℕ
  first_of k [] = none
  first_of k (r ∷ rs) = some k

  StandsAt-first :
      (children : List ℕ) (k : ℕ) (rs : List (Run W))
      → StandsAt children k (count_from k rs)
      → get_elem? children k ≡ first_of k rs
  StandsAt-first children k [] s = s
  StandsAt-first children k (r ∷ rs) s = s.0

  module _ (children : List ℕ) (all : List (Run W)) where
    abbrev drive_all : ℕ → W → Sequence.Sequence × List Message → Option (W × Ending)
    drive_all = drive (λ u e w' s. Sequence.receive true (u, e) s) (λ s u. call (get_elem? all u))

    drive_rest :
        (k : ℕ) (rs : List (Run W)) (w : W) (m : List (ℕ × StepStatus)) (failed : Bool)
        → StandsAt children k (count_from k rs)
        → RunsAt all k rs
        → NoErrorFrom k m
        → has_error m ≡ failed
        → drive_all
            (suc (length rs))
            w
            (with_statuses true children m, next_command true failed (first_of k rs))
          ≡ do_rest failed rs w
    unfolding drive reaction update_status
    drive_rest k [] w m true s r n f = refl
    drive_rest k [] w m false s r n f = refl
    drive_rest k (q ∷ rs) w m failed s r n f =
        ap (λ x. and_then x after_child) (ap (λ o. call o w) r.0)
        ∙ and_then_ext (q w) λ w' e.
          let m' = put k (get_status (event_of e)) m in
          let now : has_error m' ≡ (failed || is_failure e) =
            has_error-put k (get_status (event_of e)) m n
            ∙ ap₂ (λ x y. x || y) f (is_error_of_event e) in
          ap (drive_all (suc (length rs)) w') (
            receive_end true children k k (first_of (suc k) rs) (event_of e) m s.1
              (StandsAt-first children (suc k) rs s.2) (ends_step_of_event e)
            ∙ ap (λ b. (with_statuses true children m', next_command true b (first_of (suc k) rs)))
                now)
          ∙ drive_rest (suc k) rs w' m' (failed || is_failure e) s.2 r.1
              (put-NoErrorFrom-suc k (get_status (event_of e)) m n) now
      where
        after_child : W → Ending → Option (W × Ending)
        after_child w' e =
            drive_all (suc (length rs)) w'
              (Sequence.receive true (k, event_of e) (with_statuses true children m))

  pub run_sequence-do_all : (rs : List (Run W)) (w : W) → run_sequence rs w ≡ do_all rs w
  unfolding run_sequence drive reaction on_receive update_status Sequence.start
      Sequence.start_test_step_at_index
  run_sequence-do_all [] w = refl
  run_sequence-do_all (r ∷ rs) w =
      drive_rest (count_from 0 (r ∷ rs)) (r ∷ rs) 0 (r ∷ rs) w [] false
        (Distinct-StandsAt (count_from 0 (r ∷ rs)) (count_from-Distinct 0 (r ∷ rs)))
        (RunsAt-self (r ∷ rs)) tt refl
