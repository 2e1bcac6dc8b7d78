-- ===== src/Engine/Processor/Once.antt =====
-- How often a step of AbstractProcessorActor.java reports its end.
use gitb.Base.{
  Bool, true, false, Option, none, some, List, [], ◌∷◌, ◌++◌, if◌then◌else◌, ◌≡◌, refl, ap₂, ◌∙◌,
  arith,
}
use gitb.Engine.{
  TestResult, success, failure, undefined, StatusEvent, status_event, error_status_event, error,
  completed, processing, skipped, waiting, update_status, Message, tell_parent, start_child,
  stop_children, stop_self, publish,
}
use gitb.Engine.Children.{ends_thread}
use gitb.Engine.Processor.{
  Processor, new_processor, Input, started, returned, failed, stopped, try_resolve, step, send_all,
}

-- The ends that the parent is told.
abbrev pub reports : List Message → List StatusEvent
reports [] = []
reports (tell_parent e ∷ ms) = if ends_thread e then e ∷ reports ms else reports ms
reports (start_child c ∷ ms) = reports ms
reports (stop_children ∷ ms) = reports ms
reports (stop_self ∷ ms) = reports ms
reports (publish s r ∷ ms) = reports ms

-- What the first end among the inputs calls for.
abbrev pub first_end : List Input → List StatusEvent
first_end [] = []
first_end (started ∷ is) = first_end is
first_end (returned none ∷ is) = status_event completed ∷ []
first_end (returned (some success) ∷ is) = status_event completed ∷ []
first_end (returned (some _) ∷ is) = status_event error ∷ []
first_end (_ ∷ is) = error_status_event ∷ []

reports-append : (ms ns : List Message) → reports (ms ++ ns) ≡ reports ms ++ reports ns
reports-append [] ns = refl
reports-append (tell_parent e ∷ ms) ns = ground (arith, reports-append ms ns)
reports-append (start_child c ∷ ms) ns = reports-append ms ns
reports-append (stop_children ∷ ms) ns = reports-append ms ns
reports-append (stop_self ∷ ms) ns = reports-append ms ns
reports-append (publish s r ∷ ms) ns = reports-append ms ns

-- What an update tells the parent.
reports-update_status :
    (is_named : Bool) (e : StatusEvent) (r : Option TestResult)
    → ends_thread e ≡ true
    → reports (update_status is_named e r) ≡ e ∷ []
unfolding update_status
reports-update_status true (status_event processing) r h = cc
reports-update_status true (status_event skipped) r h = cc
reports-update_status true (status_event waiting) r h = cc
reports-update_status true (status_event error) r h = refl
reports-update_status true (status_event completed) r h = refl
reports-update_status true error_status_event r h = refl
reports-update_status false (status_event processing) r h = cc
reports-update_status false (status_event skipped) r h = cc
reports-update_status false (status_event waiting) r h = cc
reports-update_status false (status_event error) r h = refl
reports-update_status false (status_event completed) r h = refl
reports-update_status false error_status_event r h = refl

abbrev ended : Processor
ended = record { resolved = true }

reports-ended : (is_named : Bool) (is : List Input) → reports (send_all is_named is ended) ≡ []
unfolding send_all step try_resolve update_status
reports-ended is_named [] = refl
reports-ended true (started ∷ is) = reports-ended true is
reports-ended false (started ∷ is) = reports-ended false is
reports-ended is_named (returned r ∷ is) = reports-ended is_named is
reports-ended is_named (failed ∷ is) = reports-ended is_named is
reports-ended is_named (stopped ∷ is) = reports-ended is_named is

-- The first end is told, and what comes after it is not.
reports_once :
    (is_named : Bool) (is : List Input) (e : StatusEvent) (r : Option TestResult)
    → ends_thread e ≡ true
    → reports (update_status is_named e r ++ send_all is_named is ended) ≡ e ∷ []
reports_once is_named is e r h =
    reports-append (update_status is_named e r) (send_all is_named is ended)
    ∙ ap₂ (λ x y. x ++ y) (reports-update_status is_named e r h) (reports-ended is_named is)

reports-started :
    (is_named : Bool) (is : List Input) (p : Processor)
    → reports (send_all is_named (started ∷ is) p) ≡ reports (send_all is_named is p)
unfolding send_all step update_status
reports-started true is p = refl
reports-started false is p = refl

-- A step that is done by a processor tells its parent of its end at most once, whatever is
-- received of starts, reports, failures and stops, and in whatever order: it tells of the
-- first end only, with COMPLETED for no report or one of success, with ERROR for any other report,
-- and with the exception for a failure or a stop.
pub reports-send_all :
    (is_named : Bool) (is : List Input)
    → reports (send_all is_named is new_processor) ≡ first_end is
unfolding send_all step try_resolve
reports-send_all is_named [] = refl
reports-send_all is_named (started ∷ is) =
    reports-started is_named is new_processor ∙ reports-send_all is_named is
reports-send_all is_named (returned none ∷ is) = reports_once is_named is _ none refl
reports-send_all is_named (returned (some success) ∷ is) =
    reports_once is_named is _ (some success) refl
reports-send_all is_named (returned (some failure) ∷ is) =
    reports_once is_named is _ (some failure) refl
reports-send_all is_named (returned (some undefined) ∷ is) =
    reports_once is_named is _ (some undefined) refl
reports-send_all is_named (failed ∷ is) = reports_once is_named is _ none refl
reports-send_all is_named (stopped ∷ is) = reports_once is_named is _ none refl
