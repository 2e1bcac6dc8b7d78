-- ===== src/Knob/Value/Range.antt =====
-- The value of a dial of jquery.knob.js stays between `min` and `max`.
use gitb.Base.{ℤ, ◌≤ℤ◌, Bool, true, not, ◌&&◌, Option, [], ◌∷◌, ◌++◌, ◌≡◌, arith, if_cases}
use gitb.Knob.State.{Config, Knob}
use gitb.Knob.Value.{
  stop_at, commit, asks_release, val, cancel, init, fresh, or_min, start, configure,
}

-- The options let the stopper keep the value in a range.
pub record HasStopper (o : Config) : Type 0 where
  pub stopper : o.stopper ≡ true
  pub ordered : o.min ≤ℤ o.max

-- There is a stopper, and the value is in its range.
pub record InRange (k : Knob) : Type 0 where
  pub stops : HasStopper k.o
  pub above : k.o.min ≤ℤ k.v
  pub below : k.v ≤ℤ k.o.max

pub stop_at_bounds :
    (o : Config) (v : ℤ) → HasStopper o → (o.min ≤ℤ stop_at o v) × (stop_at o v ≤ℤ o.max)
stop_at_bounds o v h = ground arith

pub commit-InRange : (v : ℤ) (k : Knob) → HasStopper k.o → InRange (commit v k)
commit-InRange v k h = record {
  stops = h;
  above = (stop_at_bounds k.o v h).0;
  below = (stop_at_bounds k.o v h).1;
}

pub val-InRange : (v : ℤ) (trigger : Bool) (k : Knob) → InRange k → InRange (val v trigger k)
unfolding val
val-InRange v trigger k r =
    if_cases InRange (asks_release v trigger k && not (k.o.release v))
      (λ _. record { stops = r.stops; above = r.above; below = r.below })
      (λ _.
        if_cases InRange (asks_release v trigger k)
          (λ _. commit-InRange v (record k { released = k.released ++ v ∷ [] }) r.stops)
          (λ _. commit-InRange v k r.stops))

pub cancel-InRange : (k : Knob) → InRange k → InRange (cancel k)
unfolding cancel
cancel-InRange k r = val-InRange k.v true k r

pub init-InRange : (k : Knob) → HasStopper k.o → InRange (init k)
unfolding init
init-InRange k h = record { stops = h; above = ground arith; below = ground arith }

pub configure-InRange : (o : Config) (k : Knob) → HasStopper o → InRange (configure o k)
unfolding configure
configure-InRange o k h = init-InRange (record k { o = o }) h

pub start-InRange : (o : Config) (text : Option ℤ) → HasStopper o → InRange (start o text)
unfolding start
start-InRange o text h = init-InRange (fresh o (or_min o text)) h
