-- ===== src/Engine/Session.antt =====
-- gitb-engine/src/main/java/com/gitb/engine/actors/SessionActor.java, and the states of
-- testcase/TestCaseContext.java.
pub mod Commands
use gitb.Base.{ℕ, ◌+◌, Bool, true, false, ◌&&◌, ◌||◌, List, [], ◌∷◌, if◌then◌else◌}
use gitb.Engine.{StepStatus, processing, skipped, waiting, error, completed}

-- `TestCaseStateEnum`
pub data TestCaseState : Type 0 where
  idle configuration preliminary ready execution stopped : TestCaseState

-- The ids of steps that the session knows: "0" of the preliminary phase and "-1" of the test.
pub data StepId : Type 0 where
  preliminary_step test_case_step : StepId
  other_step : ℕ → StepId

-- What the actor of the test, TestCaseProcessorActor.java, is sent.
pub data Command : Type 0 where
  initiate_preliminary start stop restart : Command

pub data Message : Type 0 where
  configure : Bool → Message  -- whether `configure` of the context returns, and does not throw
  command : Command → Message
  step_status : StepId → StepStatus → Message

-- What the sender of a `ConfigureCommand` is told.
pub data Reply : Type 0 where
  configurations exception : Reply

-- What an actor of the test is told, and the creation of a new one.
pub data Sent : Type 0 where
  told : Command → Sent  -- the actor that was created last
  new_child : Sent

-- The lists have the latest first.
pub record Session : Type 0 where
  pub current_state : TestCaseState  -- of the context, which outlives the actor
  pub has_child : Bool  -- the actor of the test has not ended
  pub sent : List Sent
  pub destroyed : ℕ  -- how often `context.destroy()` has returned
  pub replies : List Reply
  pub updates : List (StepId × StepStatus)  -- `TestbedService.updateStatus`
  pub failures : ℕ  -- how often `onReceive` has thrown

-- `preStart` has created the actor of the test.
abbrev pub new_session : Session
new_session = record {
  current_state = idle;
  has_child = true;
  sent = [];
  destroyed = 0;
  replies = [];
  updates = [];
  failures = 0;
}

-- An exception out of `onReceive`: the actor is restarted, which stops its child, and `preStart`
-- creates a new one.
abbrev pub throws : Session → Session
throws s = record s { has_child = true; sent = new_child ∷ s.sent; failures = s.failures + 1 }

-- `unexpectedCommand`
abbrev pub unexpected_command : Session → Session
unexpected_command s = throws s

-- `getChild(NAME).tell(message)`, and the state after it; `getChild` is null if it has ended.
abbrev pub send : Command → TestCaseState → Session → Session
send c state s =
    if s.has_child then record s { sent = told c ∷ s.sent; current_state = state } else throws s

-- `context.destroy()` and the state after it; `returns` says whether the ends of its messaging
-- sessions return.
abbrev pub destroy : Bool → Session → Session
destroy returns s =
    if returns then record s { destroyed = s.destroyed + 1; current_state = stopped } else throws s

-- A stop, in a state.
abbrev pub stop_test : Bool → Session → Session
stop_test returns s =
    if s.has_child then destroy returns (record s { sent = told stop ∷ s.sent }) else throws s

abbrev pub send_status_update : StepId → StepStatus → Session → Session
send_status_update i st s = record s { updates = (i, st) ∷ s.updates }

abbrev pub is_preliminary_end : StepId → StepStatus → Bool
is_preliminary_end preliminary_step completed = true
is_preliminary_end _ _ = false

abbrev pub is_test_end : StepId → StepStatus → Bool
is_test_end test_case_step completed = true
is_test_end test_case_step error = true
is_test_end _ _ = false

-- The cases of `onReceive`; `has_preliminary` says that the test has a preliminary phase.
module _ (has_preliminary : Bool) where
  abbrev pub on_idle : Message → Session → Session
  on_idle (configure true) s = record s {
    replies = configurations ∷ s.replies;
    current_state = if has_preliminary then configuration else ready;
  }
  on_idle (configure false) s = record s { replies = exception ∷ s.replies }
  on_idle _ s = unexpected_command s

-- Every child is told, if there is one.
abbrev pub on_configuration : Message → Session → Session
on_configuration (command initiate_preliminary) s = record s {
  sent = if s.has_child then told initiate_preliminary ∷ s.sent else s.sent;
  current_state = preliminary;
}
on_configuration _ s = unexpected_command s

-- `returns` as for `destroy`, and here whether `updateStatus` returns.
module _ (returns : Bool) where
  -- The state is set before the update.
  abbrev pub on_preliminary : Message → Session → Session
  on_preliminary (step_status i st) s =
      let s' = if is_preliminary_end i st then record s { current_state = ready } else s in
      if returns then send_status_update i st s' else throws s'
  on_preliminary _ s = unexpected_command s

  abbrev pub on_ready : Message → Session → Session
  on_ready (command start) s = send start execution s
  on_ready (command stop) s = stop_test returns s
  on_ready _ s = unexpected_command s

  -- Without the update if destroying the context throws.
  abbrev pub on_test_end : StepId → StepStatus → Session → Session
  on_test_end i st s =
      if returns then send_status_update i st (destroy returns s) else destroy returns s

  abbrev pub on_execution : Message → Session → Session
  on_execution (step_status i st) s =
      if is_test_end i st then on_test_end i st s else send_status_update i st s
  on_execution (command stop) s = stop_test returns s
  on_execution _ s = unexpected_command s

abbrev pub on_stopped : Message → Session → Session
on_stopped (command restart) s = send restart stopped s
on_stopped (step_status i st) s = s  -- `ignoredStatusUpdate`
on_stopped _ s = unexpected_command s

-- `onReceive`, by the state of the context.
module _ (has_preliminary returns : Bool) where
  abbrev pub receive_in : TestCaseState → Message → Session → Session
  receive_in idle m s = on_idle has_preliminary m s
  receive_in configuration m s = on_configuration m s
  receive_in preliminary m s = on_preliminary returns m s
  receive_in ready m s = on_ready returns m s
  receive_in execution m s = on_execution returns m s
  receive_in stopped m s = on_stopped m s

-- A message, and whether the other parts that it makes the actor call return (`context.destroy` and,
-- in PRELIMINARY, `TestbedService.updateStatus`); and the end of the actor of the
-- test, which is the end of it after a stop or a restart.
pub data Input : Type 0 where
  received : Message → Bool → Input
  child_ends : Input

unfoldable pub receive : Bool → Input → Session → Session
receive has_preliminary (received m returns) s =
    receive_in has_preliminary returns s.current_state m s
receive has_preliminary child_ends s = record s { has_child = false }

unfoldable pub run_session : Bool → List Input → Session → Session
unfolding receive
run_session has_preliminary [] s = s
run_session has_preliminary (i ∷ is) s =
    run_session has_preliminary is (receive has_preliminary i s)
