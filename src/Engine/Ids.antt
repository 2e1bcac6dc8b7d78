-- ===== src/Engine/Ids.antt =====
-- The ids of the steps of a test: those that are shown, which
-- gitb-engine/src/main/java/com/gitb/engine/utils/TestCaseUtils.java makes, and those of the actors,
-- which SequenceProcessorActor.java and the actors of the steps with children make.
pub mod Agree
use gitb.Base.{ℕ, suc, Bool, true, false, List, [], ◌∷◌, ◌++◌, if◌then◌else◌}

-- The parts of an id, in the order of its text: a number, which the text separates from what is
-- before it by ".", a number in brackets, "[T]" and "[F]".
pub data Part : Type 0 where
  number bracket : ℕ → Part
  then_part else_part : Part

abbrev pub StepId : Type 0
StepId = List Part

abbrev pub child_id : StepId → ℕ → StepId
child_id id n = id ++ number n ∷ []

abbrev pub round_id : StepId → ℕ → StepId
round_id id n = id ++ bracket n ∷ []

abbrev pub then_id : StepId → StepId
then_id id = id ++ then_part ∷ []

abbrev pub else_id : StepId → StepId
else_id id = id ++ else_part ∷ []

-- The steps of a test, com.gitb.tdl. A call has the steps of the
-- scriptlet in the test case that it names.
mutual
  pub data TestStep : Type 0 where
    verify messaging interact exit begin_transaction end_transaction assign : TestStep
    if_step : TestSteps → TestSteps → TestStep
    while_step repeat_step for_each call group : TestSteps → TestStep
    flow : Threads → TestStep

  pub data TestSteps : Type 0 where
    last_step : TestSteps
    ◌⨾◌ : TestStep → TestSteps → TestSteps

  pub data Threads : Type 0 where
    last_thread : Threads
    and_thread : TestSteps → Threads → Threads

infixr 5 ◌⨾◌
-- What is shown, com.gitb.tpl.
mutual
  pub data Shown : Type 0 where
    test_step messaging_step interaction_step exit_step : StepId → Shown
    decision : StepId → ShownSequence → ShownSequence → Shown
    loop : StepId → ShownSteps → Shown
    flow_step : StepId → ShownThreads → Shown

  pub data ShownSteps : Type 0 where
    none_shown : ShownSteps
    shown_then : Shown → ShownSteps → ShownSteps

  pub data ShownSequence : Type 0 where
    sequence : StepId → ShownSteps → ShownSequence

  pub data ShownThreads : Type 0 where
    no_thread : ShownThreads
    thread_then : ShownSequence → ShownThreads → ShownThreads

-- `addAll`
abbrev pub add_all : ShownSteps → ShownSteps → ShownSteps
add_all none_shown t = t
add_all (shown_then s r) t = shown_then s (add_all r t)

-- The end of `convertCallStep`: whether the test case has an element for scriptlets.
abbrev pub if_inline : Bool → ShownSteps → ShownSteps
if_inline true s = s
if_inline false s = none_shown

-- The steps of `convertSequence`, from an index on; groups and the steps without an id are left
-- out.
unfoldable mutual
  pub convert_steps : Bool → StepId → ℕ → TestSteps → ShownSteps
  convert_steps has id n last_step = none_shown
  convert_steps has id n (verify ⨾ r) =
      shown_then (test_step (child_id id n)) (convert_steps has id (suc n) r)
  convert_steps has id n (messaging ⨾ r) =
      shown_then (messaging_step (child_id id n)) (convert_steps has id (suc n) r)
  convert_steps has id n (interact ⨾ r) =
      shown_then (interaction_step (child_id id n)) (convert_steps has id (suc n) r)
  convert_steps has id n (exit ⨾ r) =
      shown_then (exit_step (child_id id n)) (convert_steps has id (suc n) r)
  convert_steps has id n (if_step t e ⨾ r) =
      shown_then
        (decision (child_id id n)
          (sequence (then_id (child_id id n)) (convert_steps has (then_id (child_id id n)) 1 t))
          (sequence (else_id (child_id id n)) (convert_steps has (else_id (child_id id n)) 1 e)))
        (convert_steps has id (suc n) r)
  convert_steps has id n (while_step b ⨾ r) =
      shown_then (loop (child_id id n) (convert_steps has (round_id (child_id id n) 1) 1 b))
        (convert_steps has id (suc n) r)
  convert_steps has id n (repeat_step b ⨾ r) =
      shown_then (loop (child_id id n) (convert_steps has (round_id (child_id id n) 1) 1 b))
        (convert_steps has id (suc n) r)
  convert_steps has id n (for_each b ⨾ r) =
      shown_then (loop (child_id id n) (convert_steps has (round_id (child_id id n) 1) 1 b))
        (convert_steps has id (suc n) r)
  convert_steps has id n (flow ts ⨾ r) =
      shown_then (flow_step (child_id id n) (convert_threads has (child_id id n) 1 ts))
        (convert_steps has id (suc n) r)
  convert_steps has id n (call b ⨾ r) =
      add_all (if_inline has (convert_steps has (child_id id n) 1 b))
        (convert_steps has id (suc n) r)
  convert_steps has id n (group b ⨾ r) = convert_steps has id n r
  convert_steps has id n (begin_transaction ⨾ r) = convert_steps has id n r
  convert_steps has id n (end_transaction ⨾ r) = convert_steps has id n r
  convert_steps has id n (assign ⨾ r) = convert_steps has id n r

  pub convert_threads : Bool → StepId → ℕ → Threads → ShownThreads
  convert_threads has id i last_thread = no_thread
  convert_threads has id i (and_thread b ts) =
      thread_then (sequence (round_id id i) (convert_steps has (round_id id i) 1 b))
        (convert_threads has id (suc i) ts)

unfoldable pub convert_sequence : Bool → StepId → TestSteps → ShownSequence
unfolding convert_steps
convert_sequence has id b = sequence id (convert_steps has id 1 b)

-- The actors: of a step, of a branch or a thread, of the iteration of a loop, of a call and of
-- the scriptlet that it calls, and of a group.
pub data Role : Type 0 where
  step_actor branch_actor iteration_actor call_actor scriptlet_actor group_actor : Role

-- What is below the actor of a call: its `findScriptlet` throws if the test case has no element for
-- scriptlets, and it creates no actor then.
abbrev pub if_found : Bool → List (Role × StepId) → List (Role × StepId)
if_found true s = s
if_found false s = []

-- The actors with an id that a sequence creates for its steps from an index on and those below
-- them, with both branches of an if step and the first iteration of a loop. Steps that
-- `shouldBeReported` leaves out have no id and take no index.
unfoldable mutual
  pub actors : Bool → StepId → ℕ → TestSteps → List (Role × StepId)
  actors has id n last_step = []
  actors has id n (verify ⨾ r) = (step_actor, child_id id n) ∷ actors has id (suc n) r
  actors has id n (messaging ⨾ r) = (step_actor, child_id id n) ∷ actors has id (suc n) r
  actors has id n (interact ⨾ r) = (step_actor, child_id id n) ∷ actors has id (suc n) r
  actors has id n (exit ⨾ r) = (step_actor, child_id id n) ∷ actors has id (suc n) r
  actors has id n (if_step t e ⨾ r) =
      (step_actor, child_id id n)
        ∷ ((branch_actor, then_id (child_id id n)) ∷ actors has (then_id (child_id id n)) 1 t)
      ++ (((branch_actor, else_id (child_id id n)) ∷ actors has (else_id (child_id id n)) 1 e)
          ++ actors has id (suc n) r)
  actors has id n (while_step b ⨾ r) =
      (step_actor, child_id id n)
        ∷ ((iteration_actor, round_id (child_id id n) 1)
            ∷ actors has (round_id (child_id id n) 1) 1 b)
      ++ actors has id (suc n) r
  actors has id n (repeat_step b ⨾ r) =
      (step_actor, child_id id n)
        ∷ ((iteration_actor, round_id (child_id id n) 1)
            ∷ actors has (round_id (child_id id n) 1) 1 b)
      ++ actors has id (suc n) r
  actors has id n (for_each b ⨾ r) =
      (step_actor, child_id id n)
        ∷ ((iteration_actor, round_id (child_id id n) 1)
            ∷ actors has (round_id (child_id id n) 1) 1 b)
      ++ actors has id (suc n) r
  actors has id n (flow ts ⨾ r) =
      (step_actor, child_id id n) ∷ thread_actors has (child_id id n) 1 ts
      ++ actors has id (suc n) r
  actors has id n (call b ⨾ r) =
      (call_actor, child_id id n)
        ∷ if_found has ((scriptlet_actor, child_id id n) ∷ actors has (child_id id n) 1 b)
      ++ actors has id (suc n) r
  actors has id n (group b ⨾ r) =
      ((group_actor, child_id id n) ∷ actors has (child_id id n) 1 b) ++ actors has id (suc n) r
  actors has id n (begin_transaction ⨾ r) = actors has id n r
  actors has id n (end_transaction ⨾ r) = actors has id n r
  actors has id n (assign ⨾ r) = actors has id n r

  pub thread_actors : Bool → StepId → ℕ → Threads → List (Role × StepId)
  thread_actors has id i last_thread = []
  thread_actors has id i (and_thread b ts) =
      ((branch_actor, round_id id i) ∷ actors has (round_id id i) 1 b)
      ++ thread_actors has id (suc i) ts
