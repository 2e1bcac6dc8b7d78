-- ===== src/Engine/Children.antt =====
-- The status events of the children of an actor of the engine, as the proofs about
-- SequenceProcessorActor.java, FlowStepProcessorActor.java and the loops read them.
use gitb.Base.{ℕ, Bool, true, false, List, [], ◌∷◌, ◌==◌, All, ◌≡◌}
use gitb.Engine.{StatusEvent, status_event, get_status, Message, completed, is_error}

-- A child, with the events that it sends before its step ends and the one that ends the step.
pub record Child : Type 0 where
  pub uid : ℕ
  pub before : List StatusEvent
  pub last : StatusEvent

abbrev pub uids : List Child → List ℕ
uids [] = []
uids (c ∷ cs) = c.uid ∷ uids cs

abbrev pub Distinct : List ℕ → Type 0
Distinct [] = Unit
Distinct (u ∷ us) = All (λ v. (u == v) ≡ false) us × Distinct us

-- Whether a status event ends what its sender does: COMPLETED or ERROR.
abbrev pub ends_thread : StatusEvent → Bool
ends_thread (status_event completed) = true
ends_thread e = is_error (get_status e)

abbrev pub no_answer : StatusEvent → List Message
no_answer _ = []
