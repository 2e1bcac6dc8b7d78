-- ===== src/Engine/Session/Commands.antt =====
-- Which commands SessionActor.java sends to the actors of the test, and in which order.
use gitb.Base.{ℕ, ◌+◌, ◌≤◌, Bool, true, false, List, [], ◌∷◌, if◌then◌else◌, ◌⊎◌, ◌≡◌, arith}
use gitb.Engine.{StepStatus}
use gitb.Engine.Session.{
  TestCaseState, idle, configuration, preliminary, ready, execution, stopped, StepId, Command,
  initiate_preliminary, start, stop, restart, Message, configure, command, step_status, Sent, told,
  new_child, Session, new_session, Reply, Input, received, child_ends, receive, receive_in,
  run_session,
}

-- How often a command has been sent, to whichever actor of the test.
abbrev pub same_command : Command → Command → Bool
same_command initiate_preliminary initiate_preliminary = true
same_command start start = true
same_command stop stop = true
same_command restart restart = true
same_command _ _ = false

abbrev pub times : Command → List Sent → ℕ
times c [] = 0
times c (new_child ∷ l) = times c l
times c (told d ∷ l) = if same_command c d then 1 + times c l else times c l

-- Whether the actor that was created last has been told to stop.
abbrev pub told_stop : List Sent → Bool
told_stop [] = false
told_stop (new_child ∷ l) = false
told_stop (told stop ∷ l) = true
told_stop (told _ ∷ l) = told_stop l

-- The latest is first. Each command follows only what may be before it.
abbrev pub Ordered : List Sent → Type 0
Ordered [] = Unit
Ordered (new_child ∷ l) = Ordered l
Ordered (told initiate_preliminary ∷ l) =
    (times initiate_preliminary l ≡ 0)
    × (times start l ≡ 0)
    × (times stop l ≡ 0)
    × (times restart l ≡ 0)
    × Ordered l
Ordered (told start ∷ l) =
    (times start l ≡ 0) × (times restart l ≡ 0) × (told_stop l ≡ false) × Ordered l
Ordered (told stop ∷ l) = (times restart l ≡ 0) × (told_stop l ≡ false) × Ordered l
Ordered (told restart ∷ l) = Ordered l

-- The most and the fewest commands that have been sent in a state.
abbrev pub most_initiations : Bool → TestCaseState → ℕ
most_initiations p idle = 0
most_initiations p configuration = 0
most_initiations p _ = if p then 1 else 0

abbrev pub most_starts : TestCaseState → ℕ
most_starts execution = 1
most_starts stopped = 1
most_starts _ = 0

abbrev pub fewest_starts : TestCaseState → ℕ
fewest_starts execution = 1
fewest_starts _ = 0

abbrev pub may_stop : TestCaseState → Bool
may_stop ready = true
may_stop execution = true
may_stop stopped = true
may_stop _ = false

abbrev pub is_stopped : TestCaseState → Bool
is_stopped stopped = true
is_stopped _ = false

abbrev pub is_preparing : TestCaseState → Bool
is_preparing configuration = true
is_preparing preliminary = true
is_preparing _ = false

-- The context is destroyed at the end, and once.
abbrev pub destroyed_in : TestCaseState → ℕ
destroyed_in stopped = 1
destroyed_in _ = 0

pub record IsOrderly (p : Bool) (s : Session) : Type 0 where
  pub prepares : (is_preparing s.current_state ≡ false) ⊎ (p ≡ true)
  pub initiations : times initiate_preliminary s.sent ≤ most_initiations p s.current_state
  pub starts_most : times start s.sent ≤ most_starts s.current_state
  pub starts_fewest : fewest_starts s.current_state ≤ times start s.sent
  pub stops : (times stop s.sent ≡ 0) ⊎ (may_stop s.current_state ≡ true)
  pub stops_last : (told_stop s.sent ≡ false) ⊎ (is_stopped s.current_state ≡ true)
  pub restarts : (times restart s.sent ≡ 0) ⊎ (is_stopped s.current_state ≡ true)
  pub ordered : Ordered s.sent
  pub destroyed_once : s.destroyed ≡ destroyed_in s.current_state

module _ (p : Bool) (child : Bool) (sent : List Sent) (destroyed : ℕ) (replies : List Reply)
    (updates : List (StepId × StepStatus)) (failures : ℕ) where
  abbrev in_state : TestCaseState → Session
  in_state state = record {
    current_state = state;
    has_child = child;
    sent = sent;
    destroyed = destroyed;
    replies = replies;
    updates = updates;
    failures = failures;
  }

  receive_in-IsOrderly :
      (returns : Bool) (state : TestCaseState) (m : Message)
      → IsOrderly p (in_state state)
      → IsOrderly p (receive_in p returns state m (in_state state))
  receive_in-IsOrderly returns idle (configure true) h = ground arith
  receive_in-IsOrderly returns idle (configure false) h = ground arith
  receive_in-IsOrderly returns idle (command c) h = ground arith
  receive_in-IsOrderly returns idle (step_status i st) h = ground arith
  receive_in-IsOrderly returns configuration (command initiate_preliminary) h = ground arith
  receive_in-IsOrderly returns configuration _ h = ground arith
  receive_in-IsOrderly returns preliminary (step_status i st) h = ground arith
  receive_in-IsOrderly returns preliminary _ h = ground arith
  receive_in-IsOrderly returns ready (command start) h = ground arith
  receive_in-IsOrderly returns ready (command stop) h = ground arith
  receive_in-IsOrderly returns ready _ h = ground arith
  receive_in-IsOrderly returns execution (step_status i st) h = ground arith
  receive_in-IsOrderly returns execution (command stop) h = ground arith
  receive_in-IsOrderly returns execution _ h = ground arith
  receive_in-IsOrderly returns stopped (command restart) h = ground arith
  receive_in-IsOrderly returns stopped _ h = ground arith

ends-IsOrderly :
    (p : Bool) (s : Session) → IsOrderly p s → IsOrderly p (record s { has_child = false })
ends-IsOrderly p s h = record {
  prepares = h.prepares;
  initiations = h.initiations;
  starts_most = h.starts_most;
  starts_fewest = h.starts_fewest;
  stops = h.stops;
  stops_last = h.stops_last;
  restarts = h.restarts;
  ordered = h.ordered;
  destroyed_once = h.destroyed_once;
}

run-IsOrderly :
    (p : Bool) (is : List Input) (s : Session) → IsOrderly p s → IsOrderly p (run_session p is s)
unfolding run_session receive
run-IsOrderly p [] s h = h
run-IsOrderly p (received m returns ∷ is) s h =
    run-IsOrderly p is (receive p (received m returns) s) (
      receive_in-IsOrderly p s.has_child s.sent s.destroyed s.replies s.updates s.failures returns
        s.current_state m h)
run-IsOrderly p (child_ends ∷ is) s h =
    run-IsOrderly p is (record s { has_child = false }) (ends-IsOrderly p s h)

-- Whatever messages a session receives, and whenever its context fails to be destroyed or a status
-- fails to be reported, the actor of the test ends, or an exception restarts the session with a
-- new actor of the test: a test with a preliminary phase has it initiated at most once, and no
-- other test does, before any other command; at most one start is sent, exactly one if the session
-- executes; a stop is sent only after the preparations, and to each actor of the test at most
-- once, and no start goes to an actor after its stop; commands to restart are sent only after the
-- session has ended, and no other command after them; and destroying the context has returned once
-- if the session has ended, and not before.
pub run_session-IsOrderly :
    (has_preliminary : Bool) (is : List Input)
    → IsOrderly has_preliminary (run_session has_preliminary is new_session)
run_session-IsOrderly has_preliminary is =
    run-IsOrderly has_preliminary is new_session (ground arith)
