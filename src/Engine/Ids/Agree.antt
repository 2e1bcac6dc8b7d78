-- ===== src/Engine/Ids/Agree.antt =====
-- The ids that TestCaseUtils.java shows and those of the actors.
use gitb.Base.{ℕ, suc, Bool, true, false, List, [], ◌∷◌, ◌++◌, ◌≡◌, refl, ap, ap₂, ◌∙◌, sym}
use mathlib.Core.List.{append_assoc}
use gitb.Engine.Ids.{
  StepId, child_id, round_id, then_id, else_id, verify, messaging, interact, exit,
  begin_transaction, end_transaction, assign, if_step, while_step, repeat_step, for_each, call,
  group, flow, TestSteps, last_step, ◌⨾◌, Threads, last_thread, and_thread, test_step,
  messaging_step, interaction_step, exit_step, decision, loop, flow_step, ShownSteps, none_shown,
  shown_then, ShownSequence, sequence, ShownThreads, no_thread, thread_then, add_all, if_inline,
  if_found, convert_steps, convert_threads, convert_sequence, Role, step_actor, branch_actor,
  iteration_actor, call_actor, scriptlet_actor, group_actor, actors, thread_actors,
}

-- The ids that are shown, in order.
unfoldable mutual
  pub ids : ShownSteps → List StepId
  ids none_shown = []
  ids (shown_then (test_step i) r) = i ∷ ids r
  ids (shown_then (messaging_step i) r) = i ∷ ids r
  ids (shown_then (interaction_step i) r) = i ∷ ids r
  ids (shown_then (exit_step i) r) = i ∷ ids r
  ids (shown_then (decision i t e) r) = i ∷ sequence_ids t ++ (sequence_ids e ++ ids r)
  ids (shown_then (loop i b) r) = i ∷ ids b ++ ids r
  ids (shown_then (flow_step i ts) r) = i ∷ thread_ids ts ++ ids r

  pub sequence_ids : ShownSequence → List StepId
  sequence_ids (sequence i b) = i ∷ ids b

  pub thread_ids : ShownThreads → List StepId
  thread_ids no_thread = []
  thread_ids (thread_then s ts) = sequence_ids s ++ thread_ids ts

-- The ids of the actors of steps, branches and threads.
abbrev pub reported : List (Role × StepId) → List StepId
reported [] = []
reported ((step_actor, i) ∷ r) = i ∷ reported r
reported ((branch_actor, i) ∷ r) = i ∷ reported r
reported ((_, i) ∷ r) = reported r

unfoldable mutual
  pub HasNoGroup : TestSteps → Type 0
  HasNoGroup last_step = Unit
  HasNoGroup (group b ⨾ r) = ⊥
  HasNoGroup (if_step t e ⨾ r) = HasNoGroup t × HasNoGroup e × HasNoGroup r
  HasNoGroup (while_step b ⨾ r) = HasNoGroup b × HasNoGroup r
  HasNoGroup (repeat_step b ⨾ r) = HasNoGroup b × HasNoGroup r
  HasNoGroup (for_each b ⨾ r) = HasNoGroup b × HasNoGroup r
  HasNoGroup (call b ⨾ r) = HasNoGroup b × HasNoGroup r
  HasNoGroup (flow ts ⨾ r) = HaveNoGroup ts × HasNoGroup r
  HasNoGroup (_ ⨾ r) = HasNoGroup r

  pub HaveNoGroup : Threads → Type 0
  HaveNoGroup last_thread = Unit
  HaveNoGroup (and_thread b ts) = HasNoGroup b × HaveNoGroup ts

reported-append : (xs ys : List (Role × StepId)) → reported (xs ++ ys) ≡ reported xs ++ reported ys
reported-append [] ys = refl
reported-append ((step_actor, i) ∷ xs) ys = ap (λ t. i ∷ t) (reported-append xs ys)
reported-append ((branch_actor, i) ∷ xs) ys = ap (λ t. i ∷ t) (reported-append xs ys)
reported-append ((iteration_actor, i) ∷ xs) ys = reported-append xs ys
reported-append ((call_actor, i) ∷ xs) ys = reported-append xs ys
reported-append ((scriptlet_actor, i) ∷ xs) ys = reported-append xs ys
reported-append ((group_actor, i) ∷ xs) ys = reported-append xs ys

ids-add_all : (b r : ShownSteps) → ids (add_all b r) ≡ ids b ++ ids r
unfolding ids
ids-add_all none_shown r = refl
ids-add_all (shown_then (test_step i) b) r = ap (λ t. i ∷ t) (ids-add_all b r)
ids-add_all (shown_then (messaging_step i) b) r = ap (λ t. i ∷ t) (ids-add_all b r)
ids-add_all (shown_then (interaction_step i) b) r = ap (λ t. i ∷ t) (ids-add_all b r)
ids-add_all (shown_then (exit_step i) b) r = ap (λ t. i ∷ t) (ids-add_all b r)
ids-add_all (shown_then (decision i t e) b) r = simp (ids-add_all b r, append_assoc)
ids-add_all (shown_then (loop i c) b) r = simp (ids-add_all b r, append_assoc)
ids-add_all (shown_then (flow_step i ts) b) r = simp (ids-add_all b r, append_assoc)

-- Of the actors below an actor that does not report its end as a shown step, and of the rest.
rest_lem :
    (xs ys : List (Role × StepId)) (is js : List StepId)
    → is ≡ reported xs
    → js ≡ reported ys
    → is ++ js ≡ reported (xs ++ ys)
rest_lem xs ys is js p q = ap₂ (λ x y. x ++ y) p q ∙ sym (reported-append xs ys)

-- Of the actors below a call.
called_lem :
    (has : Bool) (i : StepId) (s : ShownSteps) (xs : List (Role × StepId))
    → ids s ≡ reported xs
    → ids (if_inline has s) ≡ reported (if_found has ((scriptlet_actor, i) ∷ xs))
unfolding ids
called_lem true i s xs e = e
called_lem false i s xs e = refl

mutual
  unfolding ids convert_steps convert_threads actors thread_actors HasNoGroup HaveNoGroup
      sequence_ids thread_ids

  ids_lem :
      (has : Bool) (id : StepId) (n : ℕ) (b : TestSteps)
      → HasNoGroup b
      → ids (convert_steps has id n b) ≡ reported (actors has id n b)
  ids_lem has id n last_step h = refl
  ids_lem has id n (verify ⨾ r) h = ap (λ t. child_id id n ∷ t) (ids_lem has id (suc n) r h)
  ids_lem has id n (messaging ⨾ r) h = ap (λ t. child_id id n ∷ t) (ids_lem has id (suc n) r h)
  ids_lem has id n (interact ⨾ r) h = ap (λ t. child_id id n ∷ t) (ids_lem has id (suc n) r h)
  ids_lem has id n (exit ⨾ r) h = ap (λ t. child_id id n ∷ t) (ids_lem has id (suc n) r h)
  ids_lem has id n (if_step t e ⨾ r) h =
      let c = child_id id n in
      ap (λ x. c ∷ then_id c ∷ x)
        (rest_lem (actors has (then_id c) 1 t)
          ((branch_actor, else_id c) ∷ actors has (else_id c) 1 e ++ actors has id (suc n) r)
          (ids (convert_steps has (then_id c) 1 t)) _ (ids_lem has (then_id c) 1 t h.0)
          (ap (λ x. else_id c ∷ x)
            (rest_lem (actors has (else_id c) 1 e) (actors has id (suc n) r) _ _
              (ids_lem has (else_id c) 1 e h.1) (ids_lem has id (suc n) r h.2))))
  ids_lem has id n (while_step b ⨾ r) h =
      ap (λ x. child_id id n ∷ x)
        (rest_lem (actors has (round_id (child_id id n) 1) 1 b) (actors has id (suc n) r) _ _
          (ids_lem has (round_id (child_id id n) 1) 1 b h.0) (ids_lem has id (suc n) r h.1))
  ids_lem has id n (repeat_step b ⨾ r) h =
      ap (λ x. child_id id n ∷ x)
        (rest_lem (actors has (round_id (child_id id n) 1) 1 b) (actors has id (suc n) r) _ _
          (ids_lem has (round_id (child_id id n) 1) 1 b h.0) (ids_lem has id (suc n) r h.1))
  ids_lem has id n (for_each b ⨾ r) h =
      ap (λ x. child_id id n ∷ x)
        (rest_lem (actors has (round_id (child_id id n) 1) 1 b) (actors has id (suc n) r) _ _
          (ids_lem has (round_id (child_id id n) 1) 1 b h.0) (ids_lem has id (suc n) r h.1))
  ids_lem has id n (flow ts ⨾ r) h =
      ap (λ x. child_id id n ∷ x)
        (rest_lem (thread_actors has (child_id id n) 1 ts) (actors has id (suc n) r) _ _
          (thread_ids_lem has (child_id id n) 1 ts h.0) (ids_lem has id (suc n) r h.1))
  ids_lem has id n (call b ⨾ r) h =
      ids-add_all (if_inline has (convert_steps has (child_id id n) 1 b))
        (convert_steps has id (suc n) r)
      ∙ rest_lem (if_found has ((scriptlet_actor, child_id id n) ∷ actors has (child_id id n) 1 b))
          (actors has id (suc n) r) _ _
          (called_lem has (child_id id n) (convert_steps has (child_id id n) 1 b)
            (actors has (child_id id n) 1 b) (ids_lem has (child_id id n) 1 b h.0))
          (ids_lem has id (suc n) r h.1)
  ids_lem has id n (group b ⨾ r) h = absurd h
  ids_lem has id n (begin_transaction ⨾ r) h = ids_lem has id n r h
  ids_lem has id n (end_transaction ⨾ r) h = ids_lem has id n r h
  ids_lem has id n (assign ⨾ r) h = ids_lem has id n r h

  thread_ids_lem :
      (has : Bool) (id : StepId) (i : ℕ) (ts : Threads)
      → HaveNoGroup ts
      → thread_ids (convert_threads has id i ts) ≡ reported (thread_actors has id i ts)
  thread_ids_lem has id i last_thread h = refl
  thread_ids_lem has id i (and_thread b ts) h =
      ap (λ x. round_id id i ∷ x)
        (rest_lem (actors has (round_id id i) 1 b) (thread_actors has id (suc i) ts) _ _
          (ids_lem has (round_id id i) 1 b h.0) (thread_ids_lem has id (suc i) ts h.1))

-- The ids that are shown for the steps of a test without groups are the ids of the actors of the
-- steps that are no calls, of both branches of if steps and of the threads of flow steps, in
-- order, where a loop shows its first iteration and a call the steps of its scriptlet, or nothing
-- in a test case that has no element for scriptlets. The actors of calls, of their scriptlets and of
-- iterations, which have ids of their own, are not among the shown.
pub sequence_ids-convert_sequence :
    (has : Bool) (id : StepId) (b : TestSteps)
    → HasNoGroup b
    → sequence_ids (convert_sequence has id b) ≡ reported ((branch_actor, id) ∷ actors has id 1 b)
unfolding sequence_ids convert_sequence
sequence_ids-convert_sequence has id b h = ap (λ x. id ∷ x) (ids_lem has id 1 b h)
