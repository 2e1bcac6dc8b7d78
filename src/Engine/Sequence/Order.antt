-- ===== src/Engine/Sequence/Order.antt =====
-- What SequenceProcessorActor.java starts and reports.
use gitb.Base.{
  ℕ, suc, ◌+◌, Bool, true, false, ◌||◌, Option, none, some, List, [], ◌∷◌, ◌++◌, map, All,
  get_elem?, if◌then◌else◌, Bool-cases, inl, inr, if_true, if_false, ◌≡◌, refl, ap, ◌∙◌, arith,
}
use gitb.Engine.{
  StepStatus, is_error, StatusEvent, get_status, Message, start_child, tell_processing,
  tell_completed, tell_children_error, on_receive, answers,
}
use gitb.Engine.Children.{Child, uids, Distinct, no_answer}
use gitb.Engine.Sequence.{
  Sequence, init, index_of, put, has_error, ends_step, start_command, report_unless_started,
  start_test_step_at_index, start, go_on, record_status, handle_status_event, receive,
}
use gitb.Engine.Sequence.Places.{StandsAt, Distinct-StandsAt}
use gitb.Engine.Sequence.Statuses.{NoErrorFrom, put-NoErrorFrom, put-NoErrorFrom-suc, has_error-put}

pub record IsChild (c : Child) : Type 0 where
  pub goes_on : All (λ e. ends_step (get_status e) ≡ false) c.before
  pub ends : ends_step (get_status c.last) ≡ true

abbrev from : ℕ → List StatusEvent → List (ℕ × StatusEvent)
from u [] = []
from u (e ∷ es) = (u, e) ∷ from u es

abbrev pub all_events : List Child → List (ℕ × StatusEvent)
all_events [] = []
all_events (c ∷ cs) = from c.uid c.before ++ (c.uid, c.last) ∷ all_events cs

abbrev first_uid : List Child → Option ℕ
first_uid [] = none
first_uid (c ∷ cs) = some c.uid

-- A status that does not end a step is not ERROR.
is_error_of_ends_step : (s : StepStatus) → ends_step s ≡ false → is_error s ≡ false
is_error_of_ends_step s h = ground arith

or_false : (b c : Bool) → c ≡ false → (b || c) ≡ b
or_false b c h = ground arith

module _ (is_named : Bool) where
  -- What follows the end of a step: the start of the next one, or else the report, which is
  -- ERROR if `failed`.
  abbrev pub next_command : Bool → Option ℕ → List Message
  next_command failed none =
      if failed then tell_children_error is_named else tell_completed is_named
  next_command failed (some u) = start_child u ∷ []

  abbrev pub next_step : Bool → List Child → List Message
  next_step failed cs = next_command failed (first_uid cs)

  abbrev pub in_order : Bool → List Child → List (List Message)
  in_order failed [] = []
  in_order failed (c ∷ cs) =
      map no_answer c.before
      ++ next_step (failed || is_error (get_status c.last)) cs
        ∷ in_order (failed || is_error (get_status c.last)) cs

  module _ (children : List ℕ) where
    abbrev pub with_statuses : List (ℕ × StepStatus) → Sequence
    with_statuses m = record { children = children; child_statuses = m }

    receive_at :
        (k u : ℕ) (e : StatusEvent) (m : List (ℕ × StepStatus))
        → index_of u children ≡ some k
        → receive is_named (u, e) (with_statuses m)
          ≡ on_receive is_named (record_status is_named e (with_statuses m) (some k))
    unfolding handle_status_event
    receive_at k u e m i =
        ap (λ o. on_receive is_named (record_status is_named e (with_statuses m) o)) i

    receive_waits :
        (k u : ℕ) (e : StatusEvent) (m : List (ℕ × StepStatus))
        → index_of u children ≡ some k
        → ends_step (get_status e) ≡ false
        → receive is_named (u, e) (with_statuses m) ≡ (with_statuses (put k (get_status e) m), [])
    unfolding record_status on_receive
    receive_waits k u e m i g =
        receive_at k u e m i ∙ ap (on_receive is_named) (if_false (ends_step (get_status e)) _ _ g)

    receive_ends :
        (k u : ℕ) (e : StatusEvent) (m : List (ℕ × StepStatus))
        → index_of u children ≡ some k
        → ends_step (get_status e) ≡ true
        → receive is_named (u, e) (with_statuses m)
          ≡ on_receive is_named (go_on is_named (with_statuses (put k (get_status e) m)) k)
    unfolding record_status
    receive_ends k u e m i g =
        receive_at k u e m i ∙ ap (on_receive is_named) (if_true (ends_step (get_status e)) _ _ g)

    StandsAt-head :
        (k : ℕ) (cs : List Child)
        → StandsAt children k (uids cs)
        → get_elem? children k ≡ first_uid cs
    StandsAt-head k [] s = s
    StandsAt-head k (c ∷ cs) s = s.0

    report_next :
        (o : Option ℕ) (m : List (ℕ × StepStatus))
        → on_receive is_named (report_unless_started is_named (with_statuses m) (start_command o))
          ≡ (with_statuses m, next_command (has_error m) o)
    unfolding on_receive
    report_next none m = elim (Bool-cases (has_error m)) [ inl e ↦ rw e refl | inr e ↦ rw e refl ]
    report_next (some u) m = refl

    -- At the end of a step the next one is started, and the state is kept.
    pub receive_end :
        (k u : ℕ) (o : Option ℕ) (e : StatusEvent) (m : List (ℕ × StepStatus))
        → index_of u children ≡ some k
        → get_elem? children (suc k) ≡ o
        → ends_step (get_status e) ≡ true
        → let m' = put k (get_status e) m in
          receive is_named (u, e) (with_statuses m)
          ≡ (with_statuses m', next_command (has_error m') o)
    unfolding go_on start_test_step_at_index
    receive_end k u o e m i s g =
        receive_ends k u e m i g
        ∙ ap
            (λ x. on_receive is_named (
              report_unless_started is_named (with_statuses (put k (get_status e) m))
                (start_command x)))
            (ap (get_elem? children) {x = k + 1} {y = suc k} (omega arith) ∙ s)
        ∙ report_next o (put k (get_status e) m)

    -- The events of a step that goes on are answered by nothing.
    answers_before :
        (k u : ℕ) (es : List StatusEvent) (m : List (ℕ × StepStatus)) (failed : Bool)
        (rest : List (ℕ × StatusEvent)) (r : List (List Message))
        → index_of u children ≡ some k
        → All (λ e. ends_step (get_status e) ≡ false) es
        → NoErrorFrom k m
        → has_error m ≡ failed
        → ((m' : List (ℕ × StepStatus))
            → NoErrorFrom k m'
            → has_error m' ≡ failed
            → answers (receive is_named) rest (with_statuses m') ≡ r)
        → answers (receive is_named) (from u es ++ rest) (with_statuses m) ≡ map no_answer es ++ r
    answers_before k u [] m failed rest r i g n f then_r = then_r m n f
    answers_before k u (e ∷ es) m failed rest r i g n f then_r =
        ap (λ x. x.1 ∷ answers (receive is_named) (from u es ++ rest) x.0)
          (receive_waits k u e m i g.0)
        ∙ ap (λ x. [] ∷ x)
            (answers_before k u es (put k (get_status e) m) failed rest r i g.1
              (put-NoErrorFrom k (get_status e) m (is_error_of_ends_step (get_status e) g.0) n)
              (has_error-put k (get_status e) m n
                ∙ or_false (has_error m) (is_error (get_status e))
                    (is_error_of_ends_step (get_status e) g.0)
                ∙ f)
              then_r)

    answers-in_order :
        (k : ℕ) (cs : List Child) (m : List (ℕ × StepStatus))
        → StandsAt children k (uids cs)
        → All IsChild cs
        → NoErrorFrom k m
        → answers (receive is_named) (all_events cs) (with_statuses m) ≡ in_order (has_error m) cs
    answers-in_order k [] m s h n = refl
    answers-in_order k (c ∷ cs) m s h n =
        answers_before k c.uid c.before m (has_error m) _ _ s.1 h.0.goes_on n refl λ m' n' f.
          ap (λ x. x.1 ∷ answers (receive is_named) (all_events cs) x.0)
            (receive_end k c.uid (first_uid cs) c.last m' s.1 (StandsAt-head (suc k) cs s.2)
              h.0.ends)
          ∙ ap (λ x. next_step (has_error (put k (get_status c.last) m')) cs ∷ x)
              (answers-in_order (suc k) cs (put k (get_status c.last) m') s.2 h.1
                (put-NoErrorFrom-suc k (get_status c.last) m' n'))
          ∙ ap (λ b. next_step b cs ∷ in_order b cs)
              (has_error-put k (get_status c.last) m' n'
                ∙ ap (λ b. b || is_error (get_status c.last)) f)

-- A sequence, or group, whose children are distinct actors starts the first of them after it
-- has told its parent that it is processing. When the children then send their events, each the
-- ones that do not end its step and then one that does, the sequence answers nothing to the
-- events that do not end a step, and answers the end of each step by starting the next child; at
-- the end of the last step it reports ERROR if a step ended with ERROR, and COMPLETED otherwise.
-- The error of a step does not keep the later ones from being started.
pub answers-sequence :
    (is_named : Bool) (c : Child) (cs : List Child)
    → Distinct (uids (c ∷ cs))
    → All IsChild (c ∷ cs)
    → (start is_named (init (uids (c ∷ cs)))).sent
        ∷ answers
            (receive is_named)
            (all_events (c ∷ cs))
            (start is_named (init (uids (c ∷ cs)))).state
      ≡ (tell_processing is_named ++ start_child c.uid ∷ []) ∷ in_order is_named false (c ∷ cs)
unfolding start start_test_step_at_index
answers-sequence is_named c cs d h =
    ap (λ x. (tell_processing is_named ++ start_child c.uid ∷ []) ∷ x)
      (answers-in_order is_named (uids (c ∷ cs)) 0 (c ∷ cs) [] (Distinct-StandsAt (uids (c ∷ cs)) d)
        h tt)
