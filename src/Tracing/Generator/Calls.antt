-- ===== src/Tracing/Generator/Calls.antt =====
-- The six calls of a generator that write an event, in mcf_py/mcf_core/component_tracing.py.
use flux_mcf.Prelude.{
  ℕ, String, Bool, not, ◌||◌, Option, some, List, if◌then◌else◌, Result, ok, nat_beq,
}
use flux_mcf.Receivers.{Receivers}
use flux_mcf.ValueStore.{ValueStore, set_value}
use flux_mcf.Tracing.Messages.{
  text, real, port_write, port_peek, port_read, exec_time, port_trigger_activation,
  port_trigger_exec,
}
use flux_mcf.Tracing.Generator.{
  Controller, Generator, Surroundings, TraceEvent, fill_common, fill_port_read_event,
  fill_port_write_event, new_event, set, trigger_desc,
}

module _ {F S : Type 0} (zero_time : F) (r : Receivers (TraceEvent F) S) where
  abbrev Traced : Type 0
  Traced = Result (ValueStore (TraceEvent F) × S)

  unfoldable pub write_trace_event :
      Surroundings → Generator → TraceEvent F → ValueStore (TraceEvent F) × S → Traced
  write_trace_event sur g ev sh =
      if nat_beq ev.id 0
      then set_value r g.topic (some (record ev { id = sur.random_id })) sh
      else set_value r g.topic (some ev) sh

  -- the guard and the end of each of the six methods
  unfoldable pub traced :
      Surroundings → Controller → Generator → TraceEvent F → ValueStore (TraceEvent F) × S → Traced
  unfolding write_trace_event
  traced sur c g ev sh =
      if not g.enabled || not c.trace_enabled then ok sh else write_trace_event sur g ev sh

  unfoldable pub trace_set_port_value :
      Surroundings
      → Controller
      → Generator
      → String
      → Bool
      → Option (List ℕ)
      → Option ℕ
      → ValueStore (TraceEvent F) × S
      → Traced
  unfolding traced fill_port_write_event
  trace_set_port_value sur c g topic is_connected input_ids value sh =
      traced sur c g
        (fill_port_write_event zero_time sur g topic input_ids is_connected value
          (new_event zero_time port_write))
        sh

  unfoldable pub trace_peek_port_value :
      Surroundings
      → Controller
      → Generator
      → String
      → Bool
      → Option ℕ
      → ValueStore (TraceEvent F) × S
      → Traced
  unfolding traced fill_port_read_event
  trace_peek_port_value sur c g topic is_connected value sh =
      traced sur c g
        (fill_port_read_event zero_time sur g topic is_connected value
          (new_event zero_time port_peek))
        sh

  unfoldable pub trace_get_port_value :
      Surroundings
      → Controller
      → Generator
      → String
      → Bool
      → Option ℕ
      → ValueStore (TraceEvent F) × S
      → Traced
  unfolding traced fill_port_read_event
  trace_get_port_value sur c g topic is_connected value sh =
      traced sur c g
        (fill_port_read_event zero_time sur g topic is_connected value
          (new_event zero_time port_read))
        sh

  unfoldable pub trace_execution_time :
      Surroundings
      → Controller
      → Generator
      → ℕ
      → F
      → String
      → ValueStore (TraceEvent F) × S
      → Traced
  unfolding traced fill_common
  trace_execution_time sur c g end_time duration name sh =
      traced sur c g
        (set zero_time "description" (text name) (
          set zero_time "executionTime" (real duration)
            (fill_common zero_time sur g end_time (new_event zero_time exec_time))))
        sh

  unfoldable pub trace_port_trigger_activation :
      Surroundings → Controller → Generator → ℕ → String → ValueStore (TraceEvent F) × S → Traced
  unfolding traced fill_common trigger_desc
  trace_port_trigger_activation sur c g time topic sh =
      traced sur c g
        (set zero_time "triggerDescriptor" (trigger_desc zero_time topic time)
          (fill_common zero_time sur g time (new_event zero_time port_trigger_activation)))
        sh

  unfoldable pub trace_port_trigger_exec :
      Surroundings
      → Controller
      → Generator
      → ℕ
      → F
      → String
      → String
      → ℕ
      → ValueStore (TraceEvent F) × S
      → Traced
  unfolding traced fill_common trigger_desc
  trace_port_trigger_exec sur c g time_end duration handler_name trigger_topic trigger_time sh =
      traced sur c g
        (set zero_time "triggerDescriptor" (trigger_desc zero_time trigger_topic trigger_time) (
          set zero_time "handlerName" (text handler_name) (
            set zero_time "executionTime" (real duration)
              (fill_common zero_time sur g time_end (new_event zero_time port_trigger_exec)))))
        sh
