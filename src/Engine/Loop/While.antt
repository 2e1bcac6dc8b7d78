-- ===== src/Engine/Loop/While.antt =====
-- The iterations of WhileStepProcessorActor.java.
use gitb.Base.{
  ℕ, suc, ◌≤◌, ◌<◌, Bool, true, false, Option, none, some, List, [], ◌∷◌, ◌++◌, ltb, All, length,
  if◌then◌else◌, Bool-cases, inl, inr, if_false, ◌≡◌, refl, ap, ◌∙◌, arith,
}
use gitb.Engine.{Message, start_child, tell_processing, tell_error, turn, on_receive, answers}
use gitb.Engine.Children.{Child}
use gitb.Engine.Loop.{
  Loop, new_loop, after_processing, by_condition, tell_verdict, while_loop, while_start, while_next,
  while_receive,
}
use gitb.Engine.Loop.Rounds.{
  IsRound, holds_for, rounds, outcome, in_turn, IsLoop, answers-rounds_from_start,
}

module _ (limit : ℕ) (is_named : Bool) (last : Option Bool) where
  -- What is sent once `n` iterations have ended: past the limit the condition is not evaluated.
  abbrev pub while_end : ℕ → Bool → List Message
  while_end n failed = if ltb limit n then tell_error is_named else outcome is_named failed last

  by_condition_ends :
      (c : Option Bool) (i : ℕ) (l : Loop)
      → (c ≡ some true → limit < suc i)
      → ltb limit (suc i) ≡ false
      → (on_receive is_named (
          by_condition limit is_named turn
            (λ l'. turn l' (tell_verdict is_named l'))
            (suc i)
            (record { condition = c; fresh = 0 })
            l
            c)).1
        ≡ outcome is_named l.children_has_error c
  unfolding on_receive
  by_condition_ends none i l h e = refl
  by_condition_ends (some true) i l h e = ground (arith, h refl, e)
  by_condition_ends (some false) i l h e = refl

  while_ends :
      (i : ℕ) (l : Loop)
      → (last ≡ some true → limit < suc i)
      → (on_receive is_named
          (while_next limit is_named (record { condition = last; fresh = 0 }) i l)).1
        ≡ while_end (suc i) l.children_has_error
  unfolding while_next while_loop on_receive
  while_ends i l h = elim (Bool-cases (ltb limit (suc i))) [
    | inl e ↦ rw e refl
    | inr e ↦ rw e (by_condition_ends last i l h e)
  ]

  while_next-IsLoop : IsLoop limit is_named (while_next limit is_named) last while_end
  unfolding while_next while_loop
  while_next-IsLoop = record {
    again = λ i fresh l h. if_false (ltb limit (suc i)) _ _ (ground arith);
    ends = while_ends;
  }

-- A while step whose condition holds at first starts an iteration. If the iterations end one
-- after the other, each with COMPLETED or ERROR, and the condition holds at the end of all but the
-- last, the end of each iteration starts the next one. At the end of the last one it reports: the
-- exception of the limit if the limit plus one iterations have been started, whatever the
-- condition, and else the exception if the condition has no value, ERROR if an iteration ended
-- with ERROR, and COMPLETED otherwise. The number of iterations is at most the limit plus one,
-- and it is that number if the condition holds on.
pub answers-while :
    (limit : ℕ) (is_named : Bool) (last : Option Bool) (c : Child) (cs : List Child)
    → length cs ≤ limit
    → (last ≡ some true → limit < suc (length cs))
    → All IsRound (c ∷ cs)
    → let (l, sent) = on_receive is_named (while_start limit is_named (holds_for c.uid) new_loop) in
      sent ∷ answers (while_receive limit is_named) (rounds last (c ∷ cs)) l
      ≡ (tell_processing is_named ++ start_child c.uid ∷ [])
        ∷ in_turn (while_end limit is_named last (suc (length cs))) false (c ∷ cs)
unfolding on_receive while_start while_loop while_receive
answers-while limit is_named last c cs le final h =
    ap
      (λ t.
        let (l, sent) = on_receive is_named (after_processing limit is_named t) in
        sent ∷ answers (while_receive limit is_named) (rounds last (c ∷ cs)) l)
      (if_false (ltb limit 0) _ _ (ground arith))
    ∙ ap (λ x. (tell_processing is_named ++ start_child c.uid ∷ []) ∷ x)
        (answers-rounds_from_start limit is_named (while_next limit is_named) last
          (while_end limit is_named last) (while_next-IsLoop limit is_named last) c cs le final h)
