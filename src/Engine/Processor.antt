-- ===== src/Engine/Processor.antt =====
-- AbstractProcessorActor.java: a step that is done by a processor, once.
pub mod Once
use gitb.Base.{Bool, true, false, Option, none, some, List, [], ◌∷◌, ◌++◌, if◌then◌else◌}
use gitb.Engine.{
  TestResult, success, StatusEvent, status_event, error_status_event, error, completed, Message,
  update_status, tell_processing,
}

-- Whether `promise` has been resolved.
pub record Processor : Type 0 where
  pub resolved : Bool

-- `init`
abbrev pub new_processor : Processor
new_processor = record { resolved = false }

-- `StartCommand`, then the end of `processor.process` in its future, and `StopCommand`.
pub data Input : Type 0 where
  started : Input
  returned : Option TestResult → Input  -- a report, or null
  failed : Input
  stopped : Input

-- `onSuccess` of the promise
abbrev pub on_success : Bool → Option TestResult → List Message
on_success is_named (some success) = update_status is_named (status_event completed) (some success)
on_success is_named (some r) = update_status is_named (status_event error) (some r)
on_success is_named none = update_status is_named (status_event completed) none

-- `onFailure` of the promise
abbrev pub on_failure : Bool → List Message
on_failure is_named = update_status is_named error_status_event none

-- `trySuccess` and `tryFailure`, with what the promise calls then.
unfoldable pub try_resolve : List Message → Processor → Processor × List Message
try_resolve ms p = if p.resolved then (p, []) else (record { resolved = true }, ms)

unfoldable pub step : Bool → Input → Processor → Processor × List Message
unfolding try_resolve
step is_named started p = (p, tell_processing is_named)
step is_named (returned r) p = try_resolve (on_success is_named r) p
step is_named failed p = try_resolve (on_failure is_named) p
step is_named stopped p = try_resolve (on_failure is_named) p

-- All that is sent.
unfoldable pub send_all : Bool → List Input → Processor → List Message
unfolding step
send_all is_named [] p = []
send_all is_named (i ∷ is) p = let (p', ms) = step is_named i p in ms ++ send_all is_named is p'
