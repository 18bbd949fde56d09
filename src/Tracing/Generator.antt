-- ===== src/Tracing/Generator.antt =====
-- mcf_py/mcf_core/component_tracing.py. The objects that a trace call reaches are its arguments; the
-- locks hold for one read or write. `I` are the ids of values, `F` the floats.
pub mod Calls
pub mod Written
use flux_mcf.Prelude.{
  ℕ, ◌+◌, ◌*◌, zero, suc, String, Bool, true, false, not, ◌||◌, Option, none, some, List, [], ◌∷◌,
  if◌then◌else◌, Result, ok, nat_beq,
}
use flux_mcf.Clock.{Datetime}
use flux_mcf.Receivers.{Receivers}
use flux_mcf.ValueStore.{ValueStore, set_value}
use flux_mcf.Tracing.Messages.{
  MessageClass, ℤ, pos, negsuc, Datum, Data, Attributes, text, number, flag, real, items, object,
  nil, cons, dataclass_fields, put, port_descriptor, trigger_descriptor, port_write, port_peek,
  port_read, exec_time, port_trigger_activation, port_trigger_exec,
}

abbrev pub default_trace_events_topic : String
default_trace_events_topic = "/mcf/trace_events"

abbrev pub topic_or_default : Option String → String
topic_or_default none = default_trace_events_topic
topic_or_default (some topic) = topic

-- ComponentTraceEventController, without its value store, which is passed to the calls
pub record Controller : Type 0 where
  pub trace_id : String
  pub topic : String
  pub trace_enabled : Bool

-- ComponentTraceEventGenerator
pub record Generator : Type 0 where
  pub trace_id : String
  pub name : String
  pub topic : String
  pub enabled : Bool

unfoldable pub new_controller : String → Option String → Controller
new_controller trace_id topic = record {
  trace_id = trace_id;
  topic = topic_or_default topic;
  trace_enabled = true;
}

unfoldable pub new_generator : String → String → Option String → Generator
new_generator trace_id name topic = record {
  trace_id = trace_id;
  name = name;
  topic = topic_or_default topic;
  enabled = true;
}

unfoldable pub create_event_generator : String → Controller → Generator
unfolding new_generator
create_event_generator comp_name c = new_generator c.trace_id comp_name (some c.topic)

unfoldable pub enable_trace : Bool → Controller → Controller
enable_trace on_off c = record c { trace_enabled = on_off }

unfoldable pub enable : Bool → Generator → Generator
enable on_off g = record g { enabled = on_off }

-- `_now_micros` of this file
unfoldable pub trace_now_micros : Datetime → ℕ
trace_now_micros d = d.secs * 1000000 + d.microsecond

-- What a call finds: the clock, the native thread id, and what `_random_id` draws.
pub record Surroundings : Type 0 where
  pub now : Datetime
  pub thread_id : ℕ
  pub random_id : ℕ

-- A DataclassValue with the id of its base class.
pub record TraceEvent (F : Type 0) : Type 0 where
  pub class : MessageClass
  pub attributes : Attributes F
  pub id : ℕ

-- _get_cpu_id
abbrev pub cpu_id : ℤ
cpu_id = negsuc 0

abbrev pub id_list : {F : Type 0} → List ℕ → Data F
id_list [] = nil
id_list (i ∷ is) = cons (number (pos i)) (id_list is)

module _ {F : Type 0} (zero_time : F) where
  abbrev pub new_event : MessageClass → TraceEvent F
  new_event cls = record { class = cls; attributes = dataclass_fields zero_time cls; id = 0 }

  -- `event.name = value`
  abbrev pub set : String → Datum F → TraceEvent F → TraceEvent F
  set k v ev = record ev { attributes = put k v ev.attributes }

  -- the assignments that all the calls make
  unfoldable pub fill_common : Surroundings → Generator → ℕ → TraceEvent F → TraceEvent F
  unfolding put
  fill_common sur g time ev = set "cpuId" (number cpu_id) (
      set "threadId" (number (pos sur.thread_id)) (
        set "componentName" (text g.name)
          (set "time" (number (pos time)) (set "traceId" (text g.trace_id) ev))))

  unfoldable pub port_desc : String → Bool → Datum F
  unfolding dataclass_fields put
  port_desc topic is_connected = object port_descriptor (
      put "connected" (flag is_connected) (
        put "topic" (text topic)
          (put "name" (text "unnamed") (dataclass_fields zero_time port_descriptor))))

  unfoldable pub trigger_desc : String → ℕ → Datum F
  unfolding dataclass_fields put
  trigger_desc topic time = object trigger_descriptor (
      put "time" (number (pos time))
        (put "topic" (text topic) (dataclass_fields zero_time trigger_descriptor)))

  -- the value's id and the ids of the inputs
  unfoldable pub fill_value : Option ℕ → Option (List ℕ) → TraceEvent F → TraceEvent F
  fill_value none input_ids ev = set "valueId" (number (pos 0)) ev
  fill_value (some id) none ev = set "valueId" (number (pos id)) ev
  fill_value (some id) (some ids) ev =
      set "inputValueIds" (items (id_list ids)) (set "valueId" (number (pos id)) ev)

  -- _fill_port_write_event, for a value that is None or has an id
  unfoldable pub fill_port_write_event :
      Surroundings
      → Generator
      → String
      → Option (List ℕ)
      → Bool
      → Option ℕ
      → TraceEvent F
      → TraceEvent F
  unfolding fill_common fill_value port_desc trace_now_micros
  fill_port_write_event sur g topic input_ids is_connected value ev = fill_value value input_ids (
      set "portDescriptor" (port_desc topic is_connected)
        (fill_common sur g (trace_now_micros sur.now) ev))

  -- _fill_port_read_event
  unfoldable pub fill_port_read_event :
      Surroundings → Generator → String → Bool → Option ℕ → TraceEvent F → TraceEvent F
  unfolding fill_common fill_value port_desc trace_now_micros
  fill_port_read_event sur g topic is_connected value ev = fill_value value none (
      set "portDescriptor" (port_desc topic is_connected)
        (fill_common sur g (trace_now_micros sur.now) ev))
