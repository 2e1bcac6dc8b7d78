-- ===== src/Engine/Tests/Sessions.antt =====
-- Runs of the engine's sessions and scopes on concrete inputs, and the ids of a test.
use gitb.Base.{
  ℕ, Bool, true, false, ◌&&◌, Option, none, some, List, [], ◌∷◌, ◌==◌, if◌then◌else◌, ◌≡◌, refl,
}
use gitb.Engine.{completed, error}
use gitb.Engine.Session.{
  Input, received, child_ends, told, new_child, configure, command, initiate_preliminary, start,
  stop, restart, step_status, preliminary_step, other_step, new_session, run_session,
}
use gitb.Engine.Session.Commands.{IsOrderly, run_session-IsOrderly}
use gitb.Engine.Ids.{
  number, TestSteps, verify, messaging, assign, if_step, while_step, call, group, flow, ◌⨾◌,
  last_step, and_thread, last_thread, convert_sequence, branch_actor, actors,
}
use gitb.Engine.Ids.Agree.{HasNoGroup, sequence_ids, reported, sequence_ids-convert_sequence}
use gitb.Engine.Scope.{
  Heap, new_scope, create_child_scope, get_variable, set_variable, set_value, resolve, get_value,
  remove_child_scope,
}
use gitb.Engine.Scope.Lookups.{same_scope, get_value-set_variable}

-- A session that is started too early, then in order; its context fails to be destroyed at the
-- first stop, and its actor has ended before the first restart.
abbrev inputs : List Input
inputs =
    received (command start) true
    ∷ received (configure true) true
    ∷ received (command initiate_preliminary) true
    ∷ received (step_status preliminary_step completed) true
    ∷ received (command start) true
    ∷ received (step_status (other_step 1) error) true
    ∷ received (command stop) false
    ∷ received (command stop) true
    ∷ child_ends
    ∷ received (command restart) true
    ∷ received (command restart) true
    ∷ []

run_session-IsOrderly_example : IsOrderly true (run_session true inputs new_session)
run_session-IsOrderly_example = run_session-IsOrderly true inputs

inputs_sent :
    (run_session true inputs new_session).sent
    ≡ told restart
      ∷ new_child
      ∷ told stop
      ∷ new_child
      ∷ told stop
      ∷ told start
      ∷ told initiate_preliminary
      ∷ new_child
      ∷ []
unfolding run_session
inputs_sent = refl

abbrev steps : TestSteps
steps =
    verify
    ⨾ assign
    ⨾ if_step (messaging ⨾ last_step) (verify ⨾ last_step)
    ⨾ while_step (flow (and_thread (verify ⨾ last_step) last_thread) ⨾ last_step)
    ⨾ call (verify ⨾ last_step)
    ⨾ last_step

sequence_ids-convert_sequence_example :
    sequence_ids (convert_sequence true [] steps)
    ≡ reported ((branch_actor, []) ∷ actors true [] 1 steps)
unfolding HasNoGroup
sequence_ids-convert_sequence_example =
    sequence_ids-convert_sequence true [] steps (tt, tt, (((tt, tt), tt), (tt, tt)))

-- The step after a group is shown with the number that the actor of the group has.
group_ids :
    (sequence_ids (convert_sequence true [] (group (verify ⨾ last_step) ⨾ messaging ⨾ last_step))
      ≡ [] ∷ (number 1 ∷ []) ∷ [])
    × (reported (actors true [] 1 (group (verify ⨾ last_step) ⨾ messaging ⨾ last_step))
        ≡ (number 1 ∷ number 1 ∷ []) ∷ (number 2 ∷ []) ∷ [])
unfolding sequence_ids convert_sequence actors
group_ids = (refl, refl)

-- A root with variable 7, two children and a variable 7 in the second.
abbrev root : Heap ℕ
root = record { count = 1; scope_at = λ a. new_scope none }

abbrev nested : Heap ℕ
nested = set_value 7 20 2 (create_child_scope 0 (create_child_scope 0 (set_value 7 10 0 root)).1).1

get_value-set_variable_example : get_value (set_value 7 30 0 nested) 7 1 ≡ (
    if same_scope (resolve 3 nested 7 1) (resolve 3 nested 7 1) && (7 == 7)
    then some 30
    else get_value nested 7 1)
unfolding set_variable get_variable create_child_scope
get_value-set_variable_example =
    get_value-set_variable nested (set_value 7 30 0 nested) 7 7 1 1 30 refl

hidden : get_value (set_value 7 30 0 nested) 7 2 ≡ some 20
unfolding get_value set_value create_child_scope
hidden = refl

-- Removing the first of two child scopes takes both out of the children of their parent, and removing
-- the last one is an exception.
abbrev children_left : Option (Bool × Heap ℕ) → Option (List ℕ)
children_left none = none
children_left (some (b, h)) = some (h.scope_at 0).children

remove_first : children_left (remove_child_scope 0 1 nested) ≡ some []
unfolding remove_child_scope create_child_scope set_value
remove_first = refl

remove_last : children_left (remove_child_scope 0 2 nested) ≡ none
unfolding remove_child_scope create_child_scope set_value
remove_last = refl
