-- ===== src/Engine/Sequence/Statuses.antt =====
-- The map of statuses in SequenceProcessorActor.java, while the children report in order.
use gitb.Base.{ℕ, suc, true, false, not, ◌||◌, List, [], ◌∷◌, ltb, All, ◌≡◌, arith}
use gitb.Engine.{StepStatus, is_error}
use gitb.Engine.Sequence.{put, has_error}

-- No child from index `k` on has an ERROR recorded.
abbrev pub NoErrorFrom : ℕ → List (ℕ × StepStatus) → Type 0
NoErrorFrom k = All (λ (i, s). (ltb i k || not (is_error s)) ≡ true)

pub put-NoErrorFrom :
    (k : ℕ) (v : StepStatus) (m : List (ℕ × StepStatus))
    → is_error v ≡ false
    → NoErrorFrom k m
    → NoErrorFrom k (put k v m)
unfolding put
put-NoErrorFrom k v [] e h = ground arith
put-NoErrorFrom k v ((i, w) ∷ m) e h = ground (arith, put-NoErrorFrom k v m e h.1)

NoErrorFrom-suc : (k : ℕ) (m : List (ℕ × StepStatus)) → NoErrorFrom k m → NoErrorFrom (suc k) m
NoErrorFrom-suc k [] h = tt
NoErrorFrom-suc k ((i, w) ∷ m) h = (ground arith, NoErrorFrom-suc k m h.1)

pub put-NoErrorFrom-suc :
    (k : ℕ) (v : StepStatus) (m : List (ℕ × StepStatus))
    → NoErrorFrom k m
    → NoErrorFrom (suc k) (put k v m)
unfolding put
put-NoErrorFrom-suc k v [] h = ground arith
put-NoErrorFrom-suc k v ((i, w) ∷ m) h =
    ground (arith, NoErrorFrom-suc k m h.1, put-NoErrorFrom-suc k v m h.1)

pub has_error-put :
    (k : ℕ) (v : StepStatus) (m : List (ℕ × StepStatus))
    → NoErrorFrom k m
    → has_error (put k v m) ≡ (has_error m || is_error v)
unfolding put
has_error-put k v [] h = ground arith
has_error-put k v ((i, w) ∷ m) h = ground (arith, has_error-put k v m h.1)
