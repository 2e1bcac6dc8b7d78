-- ===== src/Engine/Loop/Repeat.antt =====
-- The iterations of RepeatUntilStepProcessorActor.java.
use gitb.Base.{
  ℕ, suc, ◌≤◌, ◌<◌, Bool, true, false, Option, none, some, List, [], ◌∷◌, ◌++◌, ltb, All, length,
  if_true, if_false, ◌≡◌, refl, ap, arith,
}
use gitb.Engine.{start_child, tell_processing, Turn, turn, throws, on_receive, answers}
use gitb.Engine.Children.{Child}
use gitb.Engine.Loop.{
  Loop, new_loop, start_iteration, repeat_start, repeat_by, repeat_next, repeat_receive,
}
use gitb.Engine.Loop.Rounds.{
  IsRound, holds_for, rounds, outcome, in_turn, IsLoop, answers-rounds_from_start,
}

module _ (limit : ℕ) (is_named : Bool) where
  repeat_by_ends :
      (last : Option Bool) (i : ℕ) (l : Loop)
      → (last ≡ some true → limit < suc i)
      → (on_receive is_named
          (repeat_by limit is_named (record { condition = last; fresh = 0 }) i l last)).1
        ≡ outcome is_named l.children_has_error last
  unfolding on_receive
  repeat_by_ends none i l h = refl
  repeat_by_ends (some true) i l h =
      ap (λ (t : Turn Loop). (on_receive is_named t).1)
        (if_true (ltb limit (suc i)) (throws l [])
          (turn (start_iteration (suc i) (record { condition = some true; fresh = 0 }) l)
            (start_child 0 ∷ []))
          (ground (arith, h refl)))
  repeat_by_ends (some false) i l h = refl

  repeat_next-IsLoop :
      (last : Option Bool)
      → IsLoop limit is_named (repeat_next limit is_named) last (λ n b. outcome is_named b last)
  unfolding repeat_next
  repeat_next-IsLoop last = record {
    again = λ i fresh l h. if_false (ltb limit (suc i)) _ _ (ground arith);
    ends = repeat_by_ends last;
  }

-- A repeat step starts its first iteration without a condition. If its iterations end one after
-- the other, each with COMPLETED or ERROR, and the condition holds at the end of all but the last,
-- the end of each iteration starts the next one, and at the end of the last one it
-- reports: the exception if the condition has no value then, the exception of the limit if it
-- holds, and else ERROR if an iteration ended with ERROR, and COMPLETED otherwise. The number of
-- iterations is at most the limit plus one, and at that number the step ends if the condition
-- holds on. So it repeats while the condition holds, and not until it does.
pub answers-repeat :
    (limit : ℕ) (is_named : Bool) (last : Option Bool) (c : Child) (cs : List Child)
    → length cs ≤ limit
    → (last ≡ some true → limit < suc (length cs))
    → All IsRound (c ∷ cs)
    → let (l, sent) =
        on_receive is_named (repeat_start limit is_named (holds_for c.uid) new_loop) in
      sent ∷ answers (repeat_receive limit is_named) (rounds last (c ∷ cs)) l
      ≡ (tell_processing is_named ++ start_child c.uid ∷ [])
        ∷ in_turn (λ b. outcome is_named b last) false (c ∷ cs)
unfolding on_receive repeat_start repeat_receive
answers-repeat limit is_named last c cs le final h =
    ap (λ x. (tell_processing is_named ++ start_child c.uid ∷ []) ∷ x)
      (answers-rounds_from_start limit is_named (repeat_next limit is_named) last
        (λ n b. outcome is_named b last) (repeat_next-IsLoop limit is_named last) c cs le final h)
