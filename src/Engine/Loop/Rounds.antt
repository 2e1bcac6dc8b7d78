-- ===== src/Engine/Loop/Rounds.antt =====
-- What a while or repeat step of the engine answers to iterations that end one after the other.
use gitb.Base.{
  ℕ, suc, ◌+◌, Bool, true, false, ◌||◌, Option, none, some, List, [], ◌∷◌, ◌++◌, ◌==◌, map, All,
  if◌then◌else◌, if_true, ◌≤◌, ◌<◌, length, ◌≡◌, refl, ap, ◌∙◌, sym, arith,
}
use gitb.Engine.{
  StatusEvent, status_event, error_status_event, get_status, Message, start_child, processing,
  skipped, waiting, error, completed, tell_completed, tell_children_error, tell_error, Turn, turn,
  on_receive, answers, is_error,
}
use gitb.Engine.Children.{Child, ends_thread, no_answer}
use gitb.Engine.Loop.{
  Loop, World, start_iteration, iteration_of, at_iteration, iteration_ends, handle_status_event,
}

-- A child of a loop: its iteration ends with COMPLETED or ERROR.
pub record IsRound (c : Child) : Type 0 where
  pub goes_on : All (λ e. ends_thread e ≡ false) c.before
  pub ends : ends_thread c.last ≡ true

-- The condition holds, and a child created now gets this uid.
abbrev pub holds_for : ℕ → World
holds_for u = record { condition = some true; fresh = u }

-- The world at the end of a round, where the condition has its last value at the end of the last.
abbrev pub next_world : Option Bool → List Child → World
next_world last [] = record { condition = last; fresh = 0 }
next_world last (c ∷ cs) = holds_for c.uid

abbrev pub still : ℕ → List StatusEvent → List (ℕ × StatusEvent × World)
still u [] = []
still u (e ∷ es) = (u, e, record { condition = none; fresh = 0 }) ∷ still u es

-- The events of the rounds.
abbrev pub rounds : Option Bool → List Child → List (ℕ × StatusEvent × World)
rounds last [] = []
rounds last (c ∷ cs) = still c.uid c.before ++ (c.uid, c.last, next_world last cs) ∷ rounds last cs

-- The report once the rounds have ended: ERROR with the exception if the limit is passed or the
-- condition has no value.
abbrev pub outcome : Bool → Bool → Option Bool → List Message
outcome is_named failed none = tell_error is_named
outcome is_named failed (some true) = tell_error is_named
outcome is_named failed (some false) =
    if failed then tell_children_error is_named else tell_completed is_named

abbrev pub next_round : (Bool → List Message) → Bool → List Child → List Message
next_round at_end failed [] = at_end failed
next_round at_end failed (c ∷ cs) = start_child c.uid ∷ []

-- Each round is started at the end of the one before, and `at_end` follows the last.
abbrev pub in_turn : (Bool → List Message) → Bool → List Child → List (List Message)
in_turn at_end failed [] = []
in_turn at_end failed (c ∷ cs) =
    map no_answer c.before
    ++ next_round at_end (failed || is_error (get_status c.last)) cs
      ∷ in_turn at_end (failed || is_error (get_status c.last)) cs

-- A loop that has started a child for an iteration.
abbrev pub running : ℕ → ℕ → List (ℕ × ℕ) → Bool → Loop
running u i its b = record { iterations = (u, i) ∷ its; children_has_error = b }

or_true : (b : Bool) → (b || true) ≡ true
or_true b = ground arith

or_false : (b : Bool) → (b || false) ≡ b
or_false b = ground arith

module _ (next : ℕ → Loop → Turn Loop) where
  -- An event that does not end the iteration changes nothing.
  pub handle_waits :
      (u : ℕ) (e : StatusEvent) (l : Loop)
      → ends_thread e ≡ false
      → handle_status_event next u e l ≡ record { state = l; sent = []; failed = false }
  unfolding handle_status_event
  handle_waits u (status_event processing) l h = refl
  handle_waits u (status_event skipped) l h = refl
  handle_waits u (status_event waiting) l h = refl
  handle_waits u (status_event error) l h = cc
  handle_waits u (status_event completed) l h = cc
  handle_waits u error_status_event l h = cc

  iteration_ends_lem :
      (u i : ℕ) (its : List (ℕ × ℕ)) (b : Bool)
      → iteration_ends next u (running u i its b) ≡ next i (running u i its b)
  unfolding iteration_ends iteration_of
  iteration_ends_lem u i its b =
      ap (at_iteration next (running u i its b)) (if_true (u == u) (some i) _ (ground arith))

  -- The end of the iteration goes on from it, with the error kept.
  pub handle_ends :
      (u i : ℕ) (e : StatusEvent) (its : List (ℕ × ℕ)) (b : Bool)
      → ends_thread e ≡ true
      → handle_status_event next u e (running u i its b)
        ≡ next i (running u i its (b || is_error (get_status e)))
  unfolding handle_status_event
  handle_ends u i (status_event processing) its b h = cc
  handle_ends u i (status_event skipped) its b h = cc
  handle_ends u i (status_event waiting) its b h = cc
  handle_ends u i (status_event error) its b h =
      iteration_ends_lem u i its true ∙ ap (λ x. next i (running u i its x)) (sym (or_true b))
  handle_ends u i (status_event completed) its b h =
      iteration_ends_lem u i its b ∙ ap (λ x. next i (running u i its x)) (sym (or_false b))
  handle_ends u i error_status_event its b h =
      iteration_ends_lem u i its true ∙ ap (λ x. next i (running u i its x)) (sym (or_true b))

-- What the two kinds of loop share: below the limit a condition that holds starts the next
-- iteration, and after the last one `at_end` is sent.
pub record IsLoop (limit : ℕ) (is_named : Bool) (next : World → ℕ → Loop → Turn Loop)
    (last : Option Bool) (at_end : ℕ → Bool → List Message) : Type 0 where
  pub again :
      (i fresh : ℕ) (l : Loop)
      → i < limit
      → next (holds_for fresh) i l
        ≡ turn (start_iteration (suc i) (holds_for fresh) l) (start_child fresh ∷ [])
  pub ends :
      (i : ℕ) (l : Loop)
      → (last ≡ some true → limit < suc i)
      → (on_receive is_named (next (next_world last []) i l)).1
        ≡ at_end (suc i) l.children_has_error

module _ (limit : ℕ) (is_named : Bool) (next : World → ℕ → Loop → Turn Loop) (last : Option Bool)
    (at_end : ℕ → Bool → List Message) (laws : IsLoop limit is_named next last at_end) where
  abbrev receive : ℕ × StatusEvent × World → Loop → Loop × List Message
  receive (sender, event, w) l = on_receive is_named (handle_status_event (next w) sender event l)

  answers-still :
      (u : ℕ) (es : List StatusEvent) (rest : List (ℕ × StatusEvent × World)) (l : Loop)
      → All (λ e. ends_thread e ≡ false) es
      → answers receive (still u es ++ rest) l ≡ map no_answer es ++ answers receive rest l
  unfolding on_receive
  answers-still u [] rest l h = refl
  answers-still u (e ∷ es) rest l h =
      let w : World = record { condition = none; fresh = 0 } in
      ap
        (λ t.
          (on_receive is_named t).1
          ∷ answers receive (still u es ++ rest) (on_receive is_named t).0)
        (handle_waits (next w) u e l h.0)
      ∙ ap (λ x. [] ∷ x) (answers-still u es rest l h.1)

  answers-rounds :
      (i : ℕ) (c : Child) (cs : List Child) (its : List (ℕ × ℕ)) (b : Bool)
      → i + length cs ≤ limit
      → (last ≡ some true → limit < suc (i + length cs))
      → All IsRound (c ∷ cs)
      → answers receive (rounds last (c ∷ cs)) (running c.uid i its b)
        ≡ in_turn (at_end (suc (i + length cs))) b (c ∷ cs)
  unfolding on_receive
  answers-rounds i c [] its b le final h =
      answers-still c.uid c.before _ (running c.uid i its b) h.0.goes_on
      ∙ ap (λ x. map no_answer c.before ++ (on_receive is_named x).1 ∷ [])
          (handle_ends (next (next_world last [])) c.uid i c.last its b h.0.ends)
      ∙ ap (λ x. map no_answer c.before ++ x ∷ [])
          (laws.ends i (running c.uid i its (b || is_error (get_status c.last)))
              (λ e. omega (arith, final e))
            ∙ ap (λ n. at_end n (b || is_error (get_status c.last))) {x = suc i} {y = suc (i + 0)}
                (omega arith))
  answers-rounds i c (d ∷ cs) its b le final h =
      answers-still c.uid c.before _ (running c.uid i its b) h.0.goes_on
      ∙ ap
          (λ x.
            map no_answer c.before
            ++ (on_receive is_named x).1
              ∷ answers receive (rounds last (d ∷ cs)) (on_receive is_named x).0)
          (handle_ends (next (next_world last (d ∷ cs))) c.uid i c.last its b h.0.ends
            ∙ laws.again i d.uid (running c.uid i its (b || is_error (get_status c.last)))
                (omega arith))
      ∙ ap (λ x. map no_answer c.before ++ (start_child d.uid ∷ []) ∷ x)
          (answers-rounds (suc i) d cs ((c.uid, i) ∷ its) (b || is_error (get_status c.last))
              (omega arith) (λ e. omega (arith, final e)) h.1
            ∙ ap (λ n. in_turn (at_end n) (b || is_error (get_status c.last)) (d ∷ cs))
                {x = suc (suc i + length cs)} {y = suc (i + suc (length cs))} (omega arith))

  -- From the first iteration on.
  pub answers-rounds_from_start :
      (c : Child) (cs : List Child)
      → length cs ≤ limit
      → (last ≡ some true → limit < suc (length cs))
      → All IsRound (c ∷ cs)
      → answers receive (rounds last (c ∷ cs)) (running c.uid 0 [] false)
        ≡ in_turn (at_end (suc (length cs))) false (c ∷ cs)
  answers-rounds_from_start c cs le final h =
      answers-rounds 0 c cs [] false (omega arith) (λ e. omega (arith, final e)) h
      ∙ ap (λ n. in_turn (at_end n) false (c ∷ cs)) {x = suc (0 + length cs)} {y = suc (length cs)}
          (omega arith)
