-- ===== src/Events.antt =====
-- mcf_py/mcf_core/events.py, and `ValueReceivedEvent` of mcf_py/mcf_core/component_framework.py.
-- The lock of an event is held for the whole of each operation, so an operation is one step.
pub mod Notify
use flux_mcf.Prelude.{
  ℕ, String, ◌≡◌, refl, Bool, true, false, not, ◌||◌, Option, none, some, List, [], ◌∷◌, ◌++◌,
  keep_if, if◌then◌else◌, arith,
}
use flux_mcf.World.{
  World, Event, EventClass, plain, value_received, ValueQueue, TraceCall,
  trace_port_trigger_activation, put_event, put_queue, add_trace,
}

-- Event.__init__ and ValueReceivedEvent.__init__
unfoldable pub new_event : EventClass → Event
new_event c = record { class = c; flag = false; expired = false }

-- What waits for an event: `wait_and_clear` returns at once if the flag is set, and otherwise blocks
-- until a notification.
pub data Wait : Type 0 where
  returned blocked : Wait

-- Python's truth of the result of `trigger`
abbrev pub truthy : Option Bool → Bool
truthy none = false
truthy (some b) = b

module _ {V : Type 0} where
  -- Event.trigger, which returns whether the event is expired
  unfoldable pub plain_trigger : ℕ → World V → World V × Bool
  plain_trigger e w =
      let ev = w.events e in
      (if ev.expired then w else put_event e (record ev { flag = true }) w, ev.expired)

  -- the trace call of ValueReceivedEvent.trigger
  unfoldable pub trace_activation : ℕ → Option ℕ → World V → World V
  trace_activation q none w = w
  trace_activation q (some g) w =
      let vq = w.queues q in
      add_trace (trace_port_trigger_activation g vq.last_receive_time vq.last_receive_topic) w

  -- ValueReceivedEvent.trigger calls Event.trigger and returns None
  unfoldable pub trigger_as : EventClass → ℕ → World V → World V × Option Bool
  trigger_as plain e w = let (w', expired) = plain_trigger e w in (w', some expired)
  trigger_as (value_received q g) e w =
      let (w', _) = plain_trigger e w in (trace_activation q g w', none)

  -- `e.trigger()`, by the class of the object
  unfoldable pub trigger : ℕ → World V → World V × Option Bool
  unfolding trigger_as plain_trigger trace_activation
  trigger e w = trigger_as (w.events e).class e w

  unfoldable pub active : ℕ → World V → Bool
  active e w = (w.events e).flag

  unfoldable pub clear : ℕ → World V → World V
  clear e w = put_event e (record (w.events e) { flag = false }) w

  unfoldable pub expire : ℕ → World V → World V
  expire e w = put_event e (record (w.events e) { expired = true }) w

  unfoldable pub expired : ℕ → World V → Bool
  expired e w = (w.events e).expired

  -- Event.wait_and_clear, up to the point where it blocks
  unfoldable pub wait_and_clear : ℕ → World V → World V × Wait
  unfolding clear
  wait_and_clear e w = if (w.events e).flag then (clear e w, returned) else (w, blocked)

  -- EventSource.add_event, at the event source of a queue
  unfoldable pub add_event : ℕ → ℕ → World V → World V
  add_event q e w =
      let vq = w.queues q in put_queue q (record vq { events = vq.events ++ e ∷ [] }) w

  -- the loop of EventSource._notify_events
  unfoldable pub notify_all : List ℕ → World V → World V × Bool
  notify_all [] w = (w, false)
  notify_all (e ∷ es) w =
      let (w', r) = trigger e w in let (w'', found) = notify_all es w' in (w'', truthy r || found)

  -- EventSource._notify_events
  unfoldable pub notify_events : ℕ → World V → World V
  notify_events q w =
      let (w', found_expired) = notify_all (w.queues q).events w in
      let vq = w'.queues q in
      if found_expired
      then put_queue q (record vq { events = keep_if (λ e. not (w'.events e).expired) vq.events })
          w'
      else w'
