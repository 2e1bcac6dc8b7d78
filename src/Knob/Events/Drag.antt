-- ===== src/Knob/Events/Drag.antt =====
-- Turning a dial of jquery.knob.js with the mouse: what has been seen and what is kept.
use gitb.Base.{
  if◌then◌else◌, ℤ, List, [], ◌∷◌, ◌++◌, map, true, false, not, ◌&&◌, eq_ℤ, eq_ℤ_refl, eq_of_parts,
  ap, ◌≤ℤ◌, ◌≡◌, refl, ◌∙◌, arith, if_cases,
}
use gitb.Knob.State.{Config, Knob}
use gitb.Knob.Value.{stop_at, asks_release, val, cancel}
use gitb.Knob.Value.Range.{InRange}
use gitb.Knob.Events.Range.{Holds-InRange}
use gitb.Knob.Input.{mouse_down, mouse_move, mouse_up, escape}
use gitb.Knob.Events.{mouse_pressed, mouse_moved, handle_knob, run_knob}

-- `d` is the dial `k` while the mouse turns it.
record Turning (k d : Knob) : Type 0 where
  options : d.o ≡ k.o
  value : d.v ≡ k.v
  calls : d.released ≡ k.released
  bound : d.mouse_bound ≡ true

mouse_down-Turning : (at : ℤ) (k : Knob) → k.listens ≡ true → Turning k (mouse_down at k)
unfolding mouse_down
mouse_down-Turning at k h = record {
  options = ground arith;
  value = ground arith;
  calls = ground arith;
  bound = ground arith;
}

mouse_move-Turning : (at : ℤ) (k d : Knob) → Turning k d → Turning k (mouse_move at d)
unfolding mouse_move
mouse_move-Turning at k d t = record {
  options = ground (arith, t.options);
  value = ground (arith, t.value);
  calls = ground (arith, t.calls);
  bound = ground (arith, t.bound);
}

-- The dial after the mouse was pressed and moved.
abbrev pub turned : ℤ → List ℤ → Knob → Knob
turned at ats k = run_knob (mouse_pressed at ∷ map mouse_moved ats) k

moved-Turning :
    (ats : List ℤ) (k d : Knob) → Turning k d → Turning k (run_knob (map mouse_moved ats) d)
unfolding run_knob handle_knob
moved-Turning [] k d t = t
moved-Turning (at ∷ ats) k d t = moved-Turning ats k (mouse_move at d) (mouse_move-Turning at k d t)

turned-Turning : (at : ℤ) (ats : List ℤ) (k : Knob) → k.listens ≡ true → Turning k (turned at ats k)
unfolding run_knob handle_knob
turned-Turning at ats k h = moved-Turning ats k (mouse_down at k) (mouse_down-Turning at k h)

stop_at_id : (o : Config) (v : ℤ) → o.min ≤ℤ v → v ≤ℤ o.max → stop_at o v ≡ v
stop_at_id o v lo hi = ground (arith, eq_of_parts o.max v)

-- The value is committed, and shown.
record Rests (v : ℤ) (released : List ℤ) (d : Knob) : Type 0 where
  value : d.v ≡ v
  shown : d.cv ≡ v
  input : d.text ≡ v
  calls : d.released ≡ released

cancel-Rests : (d : Knob) → InRange d → Rests d.v d.released (cancel d)
unfolding cancel val
cancel-Rests d r =
    let same = stop_at_id d.o d.v r.above r.below in
    let no_call : asks_release d.v true d ≡ false = ground (arith, eq_ℤ_refl d.v) in
    if_cases (Rests d.v d.released) (asks_release d.v true d && not (d.o.release d.v))
      (λ e. absurd (ground arith))
      (λ _.
        if_cases (Rests d.v d.released) (asks_release d.v true d) (λ e. absurd (ground arith))
          (λ _. record { value = same; shown = same; input = same; calls = refl }))

escape-Rests :
    (d : Knob)
    → InRange d
    → d.mouse_bound ≡ true
    → d.o.cancel ≡ true
    → Rests d.v d.released (escape d)
unfolding escape
escape-Rests d r b h =
    if_cases (Rests d.v d.released) (not d.mouse_bound) (λ e. absurd (ground arith))
      (λ _.
        if_cases (Rests d.v d.released) (not d.o.cancel) (λ e. absurd (ground arith))
          (λ _.
            cancel-Rests (record d { mouse_bound = false })
              (record { stops = r.stops; above = r.above; below = r.below })))

escape_facts :
    (k d : Knob)
    → Turning k d
    → InRange k
    → k.o.cancel ≡ true
    → ((escape d).v ≡ k.v)
      × ((escape d).cv ≡ k.v)
      × ((escape d).text ≡ k.v)
      × ((escape d).released ≡ k.released)
escape_facts k d t r h =
    let in_range = Holds-InRange k d r (record { options = t.options; value = t.value }) in
    let rests = escape-Rests d in_range t.bound (ap (λ o. o.cancel) t.options ∙ h) in
    (rests.value ∙ t.value, rests.shown ∙ t.value, rests.input ∙ t.value, rests.calls ∙ t.calls)

-- If the mouse is pressed on a dial whose value is in its range, moved to any places, and the
-- escape key is then released, and the hook for that does not refuse, then the value, the value
-- shown and the input are those before, and the hook for the release has not been called.
pub escape_restores :
    (at : ℤ) (ats : List ℤ) (k : Knob)
    → InRange k
    → k.listens ≡ true
    → k.o.cancel ≡ true
    → let d = escape (turned at ats k) in
      (d.v ≡ k.v) × (d.cv ≡ k.v) × (d.text ≡ k.v) × (d.released ≡ k.released)
escape_restores at ats k r l h = escape_facts k (turned at ats k) (turned-Turning at ats k l) r h

-- What `val` does where the hook does not refuse.
val-Rests :
    (v : ℤ) (d : Knob)
    → (d.o.has_release && not (d.o.release v)) ≡ false
    → Rests
        (stop_at d.o v)
        (if asks_release v true d then d.released ++ v ∷ [] else d.released)
        (val v true d)
unfolding val
val-Rests v d h = record {
  value = ground arith;
  shown = ground arith;
  input = ground arith;
  calls = ground arith;
}

released_facts :
    (k m : Knob)
    → Turning k m
    → (k.o.has_release && not (k.o.release m.cv)) ≡ false
    → let d = mouse_up m in
      (m.v ≡ k.v)
      × (d.v ≡ stop_at k.o m.cv)
      × (d.cv ≡ stop_at k.o m.cv)
      × (d.text ≡ stop_at k.o m.cv)
      × (d.released ≡ (
          if not (eq_ℤ m.cv k.v) && k.o.has_release then k.released ++ m.cv ∷ [] else k.released))
unfolding mouse_up
released_facts k m t h = (
  t.value,
  rests.value ∙ limited,
  rests.shown ∙ limited,
  rests.input ∙ limited,
  rests.calls
      ∙ ap (λ o. calls o m.v m.released) t.options
      ∙ ap (λ v. calls k.o v m.released) t.value
      ∙ ap (λ r. calls k.o k.v r) t.calls,
)
  where
    calls : Config → ℤ → List ℤ → List ℤ
    calls o v r = if not (eq_ℤ m.cv v) && o.has_release then r ++ m.cv ∷ [] else r

    limited : stop_at m.o m.cv ≡ stop_at k.o m.cv
    limited = ap (λ o. stop_at o m.cv) t.options

    accepted : (m.o.has_release && not (m.o.release m.cv)) ≡ false
    accepted = ap (λ o. o.has_release && not (o.release m.cv)) t.options ∙ h

    rests : Rests (stop_at m.o m.cv) (calls m.o m.v m.released) (mouse_up m)
    rests =
        if_cases (Rests (stop_at m.o m.cv) (calls m.o m.v m.released)) m.mouse_bound
          (λ _. val-Rests m.cv (record m { mouse_bound = false }) accepted)
          (λ e. absurd (ground (arith, t.bound)))

-- If the mouse is pressed, moved to any places and released, and the hook for the release does not
-- refuse the value then shown, then the value was the old one until the release, and is
-- the one shown, limited by the stopper, from then on; so are the value shown and the input; and
-- the hook, if there is one, has been called with the value shown exactly if it differs from the
-- old value.
pub release_commits :
    (at : ℤ) (ats : List ℤ) (k : Knob)
    → k.listens ≡ true
    → let m = turned at ats k in
      let d = mouse_up m in
      (k.o.has_release && not (k.o.release m.cv)) ≡ false
      → (m.v ≡ k.v)
        × (d.v ≡ stop_at k.o m.cv)
        × (d.cv ≡ stop_at k.o m.cv)
        × (d.text ≡ stop_at k.o m.cv)
        × (d.released ≡ (
            if not (eq_ℤ m.cv k.v) && k.o.has_release then k.released ++ m.cv ∷ [] else k.released))
release_commits at ats k l h = released_facts k (turned at ats k) (turned-Turning at ats k l) h
