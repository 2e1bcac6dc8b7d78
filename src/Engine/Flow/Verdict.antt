-- ===== src/Engine/Flow/Verdict.antt =====
-- What FlowStepProcessorActor.java reports when its threads have ended.
use gitb.Base.{
  ℕ, suc, Bool, true, false, ◌||◌, some, List, [], ◌∷◌, ◌++◌, pos, map, length, if◌then◌else◌, ◌≡◌,
  refl, ap, ◌∙◌, sym, arith,
}
use gitb.Engine.{
  StatusEvent, status_event, error_status_event, get_status, Message, processing, skipped, waiting,
  error, completed, tell_completed, tell_children_error, on_receive, answers, is_error,
}
use gitb.Engine.Children.{ends_thread, no_answer}
use gitb.Engine.Flow.{Flow, init, start, thread_ends, handle_status_event, receive}

abbrev add_end : StatusEvent → ℕ → ℕ
add_end e n = if ends_thread e then suc n else n

abbrev pub count_ends : List StatusEvent → ℕ
count_ends [] = 0
count_ends (e ∷ es) = add_end e (count_ends es)

suc-add_end : (e : StatusEvent) (n : ℕ) → add_end e (suc n) ≡ suc (add_end e n)
suc-add_end e n = ground arith

abbrev pub any_error : List StatusEvent → Bool
any_error [] = false
any_error (e ∷ es) = is_error (get_status e) || any_error es

-- A flow whose count is `n` and which has or has not seen an error.
abbrev waits_for : List ℕ → ℕ → Bool → Flow
waits_for children n b = record {
  children = children;
  finished_children = some (pos n);
  children_has_error = b;
}

or_false : (x : Bool) → (x || false) ≡ x
or_false true = refl
or_false false = refl

module _ (is_named : Bool) (children : List ℕ) where
  -- While another thread is awaited, an event is answered by nothing.
  receive_one :
      (e : StatusEvent) (n : ℕ) (b : Bool)
      → receive is_named e (waits_for children (add_end e (suc n)) b)
        ≡ (waits_for children (suc n) (is_error (get_status e) || b), [])
  unfolding on_receive handle_status_event thread_ends
  receive_one (status_event processing) n b = refl
  receive_one (status_event skipped) n b = refl
  receive_one (status_event waiting) n b = refl
  receive_one (status_event error) n b = refl
  receive_one (status_event completed) n b = refl
  receive_one error_status_event n b = refl

  receive_last :
      (e : StatusEvent) (b : Bool)
      → ends_thread e ≡ true
      → (receive is_named e (waits_for children 1 b)).1 ≡ (
          if is_error (get_status e) || b
          then tell_completed is_named
          else tell_children_error is_named)
  unfolding on_receive handle_status_event thread_ends
  receive_last (status_event processing) b h = cc
  receive_last (status_event skipped) b h = cc
  receive_last (status_event waiting) b h = cc
  receive_last (status_event error) b h = refl
  receive_last (status_event completed) true h = refl
  receive_last (status_event completed) false h = refl
  receive_last error_status_event b h = refl

  verdict : List StatusEvent → Bool → List Message
  verdict es b = if any_error es || b then tell_completed is_named else tell_children_error is_named

  or_move : (x y b : Bool) → ((x || y) || b) ≡ (y || (x || b))
  or_move true true b = refl
  or_move true false b = refl
  or_move false y b = refl

  answers_lem :
      (es : List StatusEvent) (e : StatusEvent) (b : Bool)
      → ends_thread e ≡ true
      → answers (receive is_named) (es ++ e ∷ []) (waits_for children (suc (count_ends es)) b)
        ≡ map no_answer es ++ verdict (es ++ e ∷ []) b ∷ []
  unfolding verdict
  answers_lem [] e b h =
      ap (λ m. m ∷ []) (receive_last e b h)
      ∙ ap (λ x. (if x then tell_completed is_named else tell_children_error is_named) ∷ [])
          (sym (or_move (is_error (get_status e)) false b))
  answers_lem (d ∷ es) e b h =
      ap (λ n. answers (receive is_named) (d ∷ es ++ e ∷ []) (waits_for children n b))
        (sym (suc-add_end d (count_ends es)))
      ∙ ap (λ r. r.1 ∷ answers (receive is_named) (es ++ e ∷ []) r.0)
          (receive_one d (count_ends es) b)
      ∙ ap (λ x. [] ∷ x) (answers_lem es e (is_error (get_status d) || b) h)
      ∙ ap
          (λ x.
            map no_answer (d ∷ es)
            ++ (if x then tell_completed is_named else tell_children_error is_named) ∷ [])
          (sym (or_move (is_error (get_status d)) (any_error (es ++ e ∷ [])) b))

-- A flow step with threads reports once they have all ended, whatever the order in which their
-- status events arrive: until the last of them it answers nothing, and at the event that ends the
-- last thread it reports COMPLETED if one of the events was ERROR, and ERROR if none was. The
-- verdict is thus the opposite of the one that the other steps with children report.
pub answers-flow :
    (is_named : Bool) (c : ℕ) (cs : List ℕ) (es : List StatusEvent) (e : StatusEvent)
    → count_ends es ≡ length cs
    → ends_thread e ≡ true
    → answers (receive is_named) (es ++ e ∷ []) (start is_named (init (c ∷ cs))).state
      ≡ map no_answer es
        ++ (if any_error (es ++ e ∷ [])
            then tell_completed is_named
            else tell_children_error is_named)
          ∷ []
unfolding start verdict
answers-flow is_named c cs es e n h =
    ap (λ m. answers (receive is_named) (es ++ e ∷ []) (waits_for (c ∷ cs) (suc m) false)) (sym n)
    ∙ answers_lem is_named (c ∷ cs) es e false h
    ∙ ap
        (λ x.
          map no_answer es
          ++ (if x then tell_completed is_named else tell_children_error is_named) ∷ [])
        (or_false (any_error (es ++ e ∷ [])))
