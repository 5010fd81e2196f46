-- ===== src/Events/Handlers.antt =====
-- What one event's delivery does, whatever its handlers do.
use mathlib.Core.Logic.{ite}
use supervice.Prelude.{◌≡◌, List, [], ◌∷◌, ◌++◌, append_assoc, append-nil, refl, sym, ◌∙◌}
use supervice.Events.{
  EventType, EventType-discrete, Event, Subscribers, subscribe, HandlerResult, handled, raised,
  Delivery, note, run_handlers, deliver,
}

module _ {ℓ κ} {P : Type ℓ} {H : Type κ} (invoke : H → Event P → HandlerResult) where
  -- The handlers that raise on an event.
  raising_of : HandlerResult → H → List H → List H
  raising_of handled h rest = rest
  raising_of raised h rest = h ∷ rest

  pub raising : Event P → List H → List H
  unfolding raising_of
  raising e [] = []
  raising e (h ∷ hs) = raising_of (invoke h e) h (raising e hs)

  run_handlers-step :
      (e : Event P) (h : H) (hs : List H) (d : Delivery H) (r : HandlerResult)
      → (note invoke r h d).called ++ hs ≡ d.called ++ h ∷ hs
  unfolding note
  run_handlers-step e h hs d handled = rw append_assoc
  run_handlers-step e h hs d raised = rw append_assoc

  errors-note :
      (h : H) (rest : List H) (d : Delivery H) (r : HandlerResult)
      → (note invoke r h d).errors ++ rest ≡ d.errors ++ raising_of r h rest
  unfolding note raising_of
  errors-note h rest d handled = refl
  errors-note h rest d raised = rw append_assoc

  run_handlers_lem :
      (e : Event P) (hs : List H) (d : Delivery H)
      → ((run_handlers invoke e hs d).called ≡ d.called ++ hs)
        × ((run_handlers invoke e hs d).errors ≡ d.errors ++ raising e hs)
  unfolding run_handlers raising
  run_handlers_lem e [] d = (sym (append-nil d.called), sym (append-nil d.errors))
  run_handlers_lem e (h ∷ hs) d =
      let r = invoke h e in
      let ih = run_handlers_lem e hs (note invoke r h d) in
      (ih.0 ∙ run_handlers-step e h hs d r, ih.1 ∙ errors-note h (raising e hs) d r)

  -- Delivering an event calls every handler subscribed to its type, in the order of subscription,
  -- whichever of them raise, and reports exactly those that raise. A handler subscribed last to a
  -- type is called last for that type, and for no other type.
  pub deliver-subscribe :
      (s : Subscribers H) (t : EventType) (h : H) (e : Event P)
      → ((deliver invoke (subscribe t h s) e).called
          ≡ ite
              (EventType-discrete e.type t)
              (s.handlers_of e.type ++ h ∷ [])
              (s.handlers_of e.type))
        × ((deliver invoke s e).errors ≡ raising e (s.handlers_of e.type))
  unfolding deliver subscribe
  deliver-subscribe s t h e =
      let none_yet : Delivery H = record { called = []; errors = [] } in
      (
        (run_handlers_lem e ((subscribe t h s).handlers_of e.type) none_yet).0,
        (run_handlers_lem e (s.handlers_of e.type) none_yet).1,
      )
