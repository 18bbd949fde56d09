-- ===== src/World.antt =====
-- The objects of mcf_py/mcf_core that share state: events, value queues and the trace calls that
-- they make. An object is reached by its reference, a number, so that an event which is registered
-- at several queues is one object. The clock is the list of its future readings, one for each call
-- of `_now_micros`.
use flux_mcf.Prelude.{ℕ, suc, String, Bool, Option, List, [], ◌∷◌, ◌++◌, update}

-- `Event` of mcf_core/events.py, or its subclass `ValueReceivedEvent` of
-- mcf_core/component_framework.py with its queue and its optional trace generator.
pub data EventClass : Type 0 where
  plain : EventClass
  value_received : (queue : ℕ) (generator : Option ℕ) → EventClass

pub record Event : Type 0 where
  pub class : EventClass
  pub flag : Bool
  pub expired : Bool

-- `ValueQueue` of mcf_core/value_store.py with the fields of its base class `EventSource`.
pub record ValueQueue (V : Type 0) : Type 0 where
  pub maxlen : ℕ
  pub queue : List (V × String)
  pub expired : Bool
  pub trace_generator : Option ℕ
  pub last_receive_topic : String
  pub last_receive_time : ℕ
  pub events : List ℕ

-- The calls of a `ComponentTraceEventGenerator`, with the generator that is called.
pub data TraceCall (V : Type 0) : Type 0 where
  trace_set_port_value :
      (generator : ℕ) (topic : String) (input_ids : List ℕ) (value : V) → TraceCall V
  trace_peek_port_value : (generator : ℕ) (topic : String) (value : V) → TraceCall V
  trace_get_port_value : (generator : ℕ) (topic : String) (value : Option V) → TraceCall V
  trace_execution_time : (generator : ℕ) (end_time start_time : ℕ) → TraceCall V
  trace_port_trigger_activation : (generator : ℕ) (time : ℕ) (topic : String) → TraceCall V
  trace_port_trigger_exec :
      (generator : ℕ) (start_time end_time : ℕ) (handler topic : String) (trigger_time : ℕ)
      → TraceCall V

pub record World (V : Type 0) : Type 0 where
  pub events : ℕ → Event
  pub queues : ℕ → ValueQueue V
  pub traces : List (TraceCall V)
  pub clock : ℕ → ℕ

module _ {V : Type 0} where
  abbrev pub put_event : ℕ → Event → World V → World V
  put_event e ev w = record w { events = update w.events e ev }

  abbrev pub put_queue : ℕ → ValueQueue V → World V → World V
  put_queue q vq w = record w { queues = update w.queues q vq }

  abbrev pub add_trace : TraceCall V → World V → World V
  add_trace t w = record w { traces = w.traces ++ t ∷ [] }

  -- what remains after one reading
  abbrev pub advance : World V → World V
  advance w = record w { clock = λ n. w.clock (suc n) }
