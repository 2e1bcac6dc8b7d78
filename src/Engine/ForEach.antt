-- ===== src/Engine/ForEach.antt =====
-- ForEachStepProcessorActor.java. Numbers are as wide as the source's: `intValue` and the `int`s of
-- Java keep 32 bits.
use gitb.Base.{
  ℕ, suc, Bool, true, false, List, [], ◌∷◌, ◌++◌, ℤ, pos, ◌+ℤ◌, ◌-ℤ◌, ltb_ℤ, to_int32,
  if◌then◌else◌,
}
use gitb.Engine.{
  StatusEvent, get_status, Message, start_child, stop_children, error, completed, tell_processing,
  tell_completed, tell_children_error, Turn, turn, throws, on_receive,
}
use gitb.Engine.Loop.{exceeds}

-- `step.getStart()` and `step.getEnd()`
pub record Range : Type 0 where
  pub start : ℤ
  pub end : ℤ

-- `counter` is the value of the counter's variable in the child scope.
pub record ForEach : Type 0 where
  pub iteration : ℕ
  pub children_has_error : Bool
  pub counter : ℤ

-- `init` and `createChildScope`
abbrev pub new_for_each : Range → ForEach
new_for_each r = record { iteration = 0; children_has_error = false; counter = r.start }

-- `step.getEnd().intValue() - step.getStart().intValue()`
unfoldable pub range_size : Range → ℤ
unfolding ◌-ℤ◌
range_size r = to_int32 (to_int32 r.end -ℤ to_int32 r.start)

-- `step.getStart().intValue()+iteration`
unfoldable pub counter_at : Range → ℕ → ℤ
unfolding ◌+ℤ◌
counter_at r i = to_int32 (to_int32 r.start +ℤ pos i)

module _ (limit : ℕ) (r : Range) (is_named : Bool) where
  -- `loop`, where `finish` is what follows if it returns false; a child created now gets the uid
  -- `fresh`.
  unfoldable pub for_each_loop : (ForEach → Turn ForEach) → ℕ → ForEach → Turn ForEach
  unfolding range_size counter_at
  for_each_loop finish fresh f =
      if exceeds limit f.iteration
      then throws f []
      else if ltb_ℤ (pos f.iteration) (range_size r)
      then turn (record f { iteration = suc f.iteration; counter = counter_at r f.iteration })
          (start_child fresh ∷ [])
      else finish f

  abbrev pub started : Turn ForEach → Turn ForEach
  started t = record t { sent = tell_processing is_named ++ t.sent }

  unfoldable pub for_each_start : ℕ → ForEach → Turn ForEach
  unfolding for_each_loop
  for_each_start fresh f = started (for_each_loop (λ f'. turn f' (tell_completed is_named)) fresh f)

  abbrev pub finish_for_each : ForEach → Turn ForEach
  finish_for_each f =
      turn f
        (if f.children_has_error then tell_children_error is_named else tell_completed is_named)

  unfoldable pub handle_status_event : StatusEvent → ℕ → ForEach → Turn ForEach
  unfolding for_each_loop
  handle_status_event event fresh f = elim (get_status event) [
    | error ↦ for_each_loop finish_for_each fresh (record f { children_has_error = true })
    | completed ↦ for_each_loop finish_for_each fresh f
    | _ ↦ turn f []
  ]

  unfoldable pub receive : StatusEvent → ℕ → ForEach → ForEach × List Message
  unfolding on_receive handle_status_event
  receive event fresh f = on_receive is_named (handle_status_event event fresh f)

-- `stop`; the child scope is destroyed too.
unfoldable pub stop : ForEach → Turn ForEach
stop f = turn f (stop_children ∷ [])
