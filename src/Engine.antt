-- ===== src/Engine.antt =====
-- The actors of the test bed engine, gitb-engine/src/main/java/com/gitb/engine/actors/processors/:
-- what AbstractTestStepActor.java gives to all of them.
pub mod Children
pub mod Sequence
pub mod Flow
pub mod Loop
pub mod ForEach
pub mod Branch
pub mod Processor
pub mod Run
pub mod Ids
pub mod Session
pub mod Scope
mod Tests
use gitb.Base.{ℕ, Bool, true, false, Option, none, some, List, [], ◌∷◌, ◌++◌, if◌then◌else◌}

-- com.gitb.core.StepStatus
pub data StepStatus : Type 0 where
  processing skipped waiting error completed : StepStatus

abbrev pub is_error : StepStatus → Bool
is_error error = true
is_error _ = false

-- com.gitb.tr.TestResultType
pub data TestResult : Type 0 where
  success failure undefined : TestResult

-- A `StatusEvent`, or its subclass `ErrorStatusEvent` that holds an exception.
pub data StatusEvent : Type 0 where
  status_event : StepStatus → StatusEvent
  error_status_event : StatusEvent

abbrev pub get_status : StatusEvent → StepStatus
get_status (status_event s) = s
get_status error_status_event = error

-- What an actor sends. A child is known by the number of its path, `path().uid()`.
pub data Message : Type 0 where
  tell_parent : StatusEvent → Message
  start_child : ℕ → Message  -- `StartCommand`
  stop_children : Message  -- `StopCommand` to every child
  stop_self : Message  -- `StopCommand` and then `PoisonPill` to itself
  publish : StepStatus → Option TestResult → Message  -- `TestStepStatusEvent` on the bus

-- `updateTestStepStatus`; the report is only filled in here if there is none.
unfoldable pub default_report : StatusEvent → Option TestResult → Option TestResult
default_report e (some r) = some r
default_report (status_event completed) none = some success
default_report error_status_event none = some failure
default_report _ none = none

abbrev pub stops : StatusEvent → List Message
stops (status_event s) = []
stops error_status_event = stop_self ∷ []

-- `is_named` says that the step id is not empty.
unfoldable pub update_status : Bool → StatusEvent → Option TestResult → List Message
unfolding default_report
update_status is_named e report =
    tell_parent e ∷ stops e
    ++ (if is_named then publish (get_status e) (default_report e report) ∷ [] else [])

-- `processing()`, `completed()`, `childrenHasError()` and `error(throwable)`
module _ (is_named : Bool) where
  abbrev pub tell_processing : List Message
  tell_processing = update_status is_named (status_event processing) none

  abbrev pub tell_completed : List Message
  tell_completed = update_status is_named (status_event completed) none

  abbrev pub tell_children_error : List Message
  tell_children_error = update_status is_named (status_event error) none

  abbrev pub tell_error : List Message
  tell_error = update_status is_named error_status_event none

-- What one call of a handler leaves: the state, what was sent, and whether an exception was
-- thrown then.
pub record Turn (S : Type 0) : Type 0 where
  pub state : S
  pub sent : List Message
  pub failed : Bool

abbrev pub turn : {S : Type 0} → S → List Message → Turn S
turn s ms = record { state = s; sent = ms; failed = false }

abbrev pub throws : {S : Type 0} → S → List Message → Turn S
throws s ms = record { state = s; sent = ms; failed = true }

-- `onReceive`: an exception of the handler is reported by `error`.
unfoldable pub on_receive : {S : Type 0} → Bool → Turn S → S × List Message
unfolding update_status
on_receive is_named t = (t.state, if t.failed then t.sent ++ tell_error is_named else t.sent)

-- The answers of an actor to messages that it receives one after the other.
abbrev pub answers : {S I : Type 0} → (I → S → S × List Message) → List I → S → List (List Message)
answers step [] s = []
answers step (i ∷ is) s = let (t, ms) = step i s in ms ∷ answers step is t
