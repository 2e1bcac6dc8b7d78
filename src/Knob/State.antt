-- ===== src/Knob/State.antt =====
-- The object of jquery.knob.js (`k.o` and `k.Dial`) as a record, with its options. The values, the
-- step and what stands in the input are whole numbers.
use gitb.Base.{ℕ, Bool, Option, List, ℤ}

-- The options `o` that the value depends on. A hook of the user is its answer: `change`, `cancel`
-- and `release` say whether the hook returns something else than false, `change` and `cancel`
-- also where there is none.
pub record Config : Type 0 where
  pub min : ℤ
  pub max : ℤ
  pub step : ℕ
  pub stopper : Bool
  pub read_only : Bool
  pub change : ℤ → Bool
  pub cancel : Bool
  pub has_release : Bool
  pub release : ℤ → Bool

pub record Knob : Type 0 where
  pub o : Config
  pub v : ℤ
  pub cv : ℤ
  pub text : ℤ  -- the value of the input, `$.val()`
  pub listens : Bool  -- `_listen` has set the handlers
  pub mouse_bound : Bool  -- the handlers of `_mouse` are set on the document
  pub touch_bound : Bool  -- those of `_touch`
  pub kval_is_nan : Bool  -- `isNaN(kval)`
  pub kv_step : ℕ  -- the step in the table `kv`, which `listen` makes
  pub m : ℕ
  pub to : Bool  -- `to` holds the number of a timer
  pub doublings : ℕ  -- the timers of held keys that have not fired
  pub mw_timer_stop : Option ℤ  -- the timer `mwTimerStop`, with the value it reports
  pub mw_timer_release : Option ℤ  -- likewise
  pub released : List ℤ  -- what the hook `rH` has been called with
