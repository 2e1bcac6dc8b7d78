-- ===== src/Knob/Value.antt =====
-- The values of jquery.knob.js: _validate, val, change, init, cancel and the limits of xy2val.
-- Quotients are exact.
pub mod Steps
pub mod Range
use gitb.Base.{
  ℕ, ◌+◌, ◌*◌, ◌-◌, ◌/◌, ◌%◌, Bool, false, true, not, ◌&&◌, ◌||◌, Option, none, some, [], ◌∷◌, ◌++◌,
  ℤ, pos, negsuc, neg, suc, scale, ltb, ltb_ℤ, eq_ℤ, min_ℤ, max_ℤ, to_int32, if◌then◌else◌,
}
use gitb.Knob.State.{Config, Knob}

-- `((v < 0) ? -0.5 : 0.5) + v / step`, without its fraction.
abbrev pub steps_near : ℕ → ℤ → ℤ
steps_near step (pos n) = pos ((2 * n + step) / (2 * step))
steps_near step (negsuc n) = neg ((2 * suc n + step) / (2 * step))

-- `_validate`
unfoldable pub validate : Config → ℤ → ℤ
unfolding scale
validate o v = scale o.step (to_int32 (steps_near o.step v))

-- `max(min(v, o.max), o.min)`
abbrev pub limit : Config → ℤ → ℤ
limit o v = max_ℤ (min_ℤ v o.max) o.min

-- `stopper && (v = max(min(v, max), min))`
abbrev pub stop_at : Config → ℤ → ℤ
stop_at o v = if o.stopper then limit o v else v

abbrev pub commit : ℤ → Knob → Knob
commit v k = record k { cv = stop_at k.o v; v = stop_at k.o v; text = stop_at k.o v }

-- Whether `val` calls the hook for the release.
abbrev pub asks_release : ℤ → Bool → Knob → Bool
asks_release v trigger k = trigger && not (eq_ℤ v k.v) && k.o.has_release

-- `val` of a value; `trigger` says whether `triggerRelease` is another value than false.
unfoldable pub val : ℤ → Bool → Knob → Knob
val v trigger k =
    if asks_release v trigger k && not (k.o.release v)
    then record k { released = k.released ++ v ∷ [] }
    else if asks_release v trigger k
    then commit v (record k { released = k.released ++ v ∷ [] })
    else commit v k

-- `change`
abbrev pub change : ℤ → Knob → Knob
change v k = record k { cv = v; text = v }

-- `init`, as far as it concerns the value.
unfoldable pub init : Knob → Knob
init k =
    let v = if ltb_ℤ k.v k.o.min || ltb_ℤ k.o.max k.v then k.o.min else k.v in
    record k { v = v; text = v }

-- `(this.v === '') && (this.v = this.o.min)`, of an input with this value or with none.
abbrev pub or_min : Config → Option ℤ → ℤ
or_min o none = o.min
or_min o (some n) = n

-- What `run` has made before it calls `init`.
abbrev pub fresh : Config → ℤ → Knob
fresh o v = record {
  o = o;
  v = v;
  cv = v;
  text = v;
  listens = not o.read_only;
  mouse_bound = false;
  touch_bound = false;
  kval_is_nan = true;
  kv_step = o.step;
  m = 1;
  to = false;
  doublings = 0;
  mw_timer_stop = none;
  mw_timer_release = none;
  released = [];
}

unfoldable pub start : Config → Option ℤ → Knob
unfolding init
start o text = init (fresh o (or_min o text))

-- The handler of the event `configure`, with the options that it leads to.
unfoldable pub configure : Config → Knob → Knob
unfolding init
configure o k = init (record k { o = o })

-- `cancel`
unfoldable pub cancel : Knob → Knob
unfolding val
cancel k = val k.v true k
