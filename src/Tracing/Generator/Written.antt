-- ===== src/Tracing/Generator/Written.antt =====
-- What a trace call leaves in the store for trace events.
use flux_mcf.Prelude.{
  ℕ, String, Bool, true, false, Option, none, some, List, [], ◌∷◌, All, Result, ok, ◌>>=◌, ◌≡◌, ◌⊎◌,
  inl, inr, refl, ◌∙◌, string_eq, arith, Bool-cases, nat_beq_iff,
}
use flux_mcf.Receivers.{Receivers}
use flux_mcf.ValueStore.{ValueStore, get_value, set_value, write_value}
use flux_mcf.ValueStore.Values.{get_value-write_value}
use flux_mcf.ValueStore.Delivery.{set_value_lem}
use flux_mcf.Tracing.Messages.{
  MessageClass, Datum, attribute, end, flag, object, port_descriptor, trigger_descriptor,
  Attributes, get, text, number, real, pos, negsuc, items, serialize, unpack, packed,
  dataclass_fields, put, port_write, port_peek, port_read, exec_time, port_trigger_activation,
  port_trigger_exec,
}
use flux_mcf.Tracing.Messages.RoundTrip.{IsObject, unpack-serialize}
use flux_mcf.Tracing.Generator.{
  Controller, Generator, Surroundings, TraceEvent, fill_common, fill_value, fill_port_write_event,
  fill_port_read_event, port_desc, trigger_desc, id_list, trace_now_micros,
}
use flux_mcf.Tracing.Generator.Calls.{
  traced, write_trace_event, trace_set_port_value, trace_peek_port_value, trace_get_port_value,
  trace_execution_time, trace_port_trigger_activation, trace_port_trigger_exec,
}

-- a call of one of the six methods
pub data Call (F : Type 0) : Type 0 where
  set_port_value : String → Bool → Option (List ℕ) → Option ℕ → Call F
  peek_port_value : String → Bool → Option ℕ → Call F
  get_port_value : String → Bool → Option ℕ → Call F
  execution_time : ℕ → F → String → Call F
  trigger_activation : ℕ → String → Call F
  trigger_exec : ℕ → F → String → String → ℕ → Call F

module _ {F S : Type 0} (zero_time : F) (r : Receivers (TraceEvent F) S) (sur : Surroundings)
    (c : Controller) (g : Generator) where
  abbrev Shared : Type 0
  Shared = ValueStore (TraceEvent F) × S

  unfoldable pub call : Call F → Shared → Result Shared
  call (set_port_value topic connected ids value) sh =
      trace_set_port_value zero_time r sur c g topic connected ids value sh
  call (peek_port_value topic connected value) sh =
      trace_peek_port_value zero_time r sur c g topic connected value sh
  call (get_port_value topic connected value) sh =
      trace_get_port_value zero_time r sur c g topic connected value sh
  call (execution_time finish duration name) sh =
      trace_execution_time zero_time r sur c g finish duration name sh
  call (trigger_activation time topic) sh =
      trace_port_trigger_activation zero_time r sur c g time topic sh
  call (trigger_exec finish duration handler topic time) sh =
      trace_port_trigger_exec zero_time r sur c g finish duration handler topic time sh

  abbrev pub class_of : Call F → MessageClass
  class_of (set_port_value topic connected ids value) = port_write
  class_of (peek_port_value topic connected value) = port_peek
  class_of (get_port_value topic connected value) = port_read
  class_of (execution_time finish duration name) = exec_time
  class_of (trigger_activation time topic) = port_trigger_activation
  class_of (trigger_exec finish duration handler topic time) = port_trigger_exec

  abbrev id_or_zero : Option ℕ → Datum F
  id_or_zero none = number (pos 0)
  id_or_zero (some id) = number (pos id)

  -- the ids of the inputs are kept of a value that is there
  abbrev inputs : Option ℕ → Option (List ℕ) → List ℕ
  inputs none ids = []
  inputs (some id) none = []
  inputs (some id) (some ids) = ids

  -- an unnamed port, and a trigger
  abbrev port_of : String → Bool → Datum F
  port_of topic connected = object port_descriptor (
      attribute "name" (text "unnamed")
        (attribute "topic" (text topic) (attribute "connected" (flag connected) end)))

  abbrev trigger_of : String → ℕ → Datum F
  trigger_of topic time = object trigger_descriptor (
      attribute "topic" (text topic) (
        attribute "time" (number (pos time)) (
          attribute "hello"
            (object port_descriptor (
              attribute "name" (text "a")
                (attribute "topic" (text "b") (attribute "connected" (flag false) end))))
            end)))

  -- what the arguments of a call say of its event
  abbrev pub details : Call F → List (String × Datum F)
  details (set_port_value topic connected ids value) =
      ("portDescriptor", port_of topic connected)
      ∷ ("valueId", id_or_zero value)
      ∷ ("inputValueIds", items (id_list (inputs value ids)))
      ∷ ("time", number (pos (trace_now_micros sur.now)))
      ∷ []
  details (peek_port_value topic connected value) =
      ("portDescriptor", port_of topic connected)
      ∷ ("valueId", id_or_zero value)
      ∷ ("time", number (pos (trace_now_micros sur.now)))
      ∷ []
  details (get_port_value topic connected value) =
      ("portDescriptor", port_of topic connected)
      ∷ ("valueId", id_or_zero value)
      ∷ ("time", number (pos (trace_now_micros sur.now)))
      ∷ []
  details (execution_time end_time duration name) =
      ("description", text name)
      ∷ ("executionTime", real duration)
      ∷ ("time", number (pos end_time))
      ∷ []
  details (trigger_activation time topic) =
      ("triggerDescriptor", trigger_of topic time) ∷ ("time", number (pos time)) ∷ []
  details (trigger_exec time_end duration handler topic time) =
      ("triggerDescriptor", trigger_of topic time)
      ∷ ("handlerName", text handler)
      ∷ ("executionTime", real duration)
      ∷ ("time", number (pos time_end))
      ∷ []

  -- the attributes that a call fills in: those of the generator, and its own
  abbrev pub Fields : Call F → Attributes F → Type 0
  Fields cl fields =
      All (λ (k, d). get k fields ≡ some d)
        (("traceId", text g.trace_id)
          ∷ ("componentName", text g.name)
          ∷ ("threadId", number (pos sur.thread_id))
          ∷ ("cpuId", number (negsuc 0))
          ∷ details cl)

  -- a new object of the class of the call, with the ids and the names of the generator
  unfoldable pub IsFilled : Call F → TraceEvent F → Type 0
  IsFilled cl ev =
      (ev.class ≡ class_of cl)
      × (ev.id ≡ 0)
      × IsObject zero_time (class_of cl) ev.attributes
      × Fields cl ev.attributes

  call-IsFilled :
      (cl : Call F) (sh : Shared)
      → (ev : TraceEvent F) × IsFilled cl ev × (call cl sh ≡ traced zero_time r sur c g ev sh)
  unfolding IsFilled IsObject call fill_common fill_value fill_port_write_event fill_port_read_event
      port_desc trigger_desc trace_set_port_value trace_peek_port_value trace_get_port_value
      trace_execution_time trace_port_trigger_activation trace_port_trigger_exec get put
      dataclass_fields
  call-IsFilled (set_port_value topic connected ids none) sh = (
    _,
    (refl, refl, refl, (refl, (refl, (refl, (refl, (refl, (refl, (refl, (refl, tt))))))))),
    refl,
  )
  call-IsFilled (set_port_value topic connected none (some id)) sh = (
    _,
    (refl, refl, refl, (refl, (refl, (refl, (refl, (refl, (refl, (refl, (refl, tt))))))))),
    refl,
  )
  call-IsFilled (set_port_value topic connected (some ids) (some id)) sh = (
    _,
    (refl, refl, refl, (refl, (refl, (refl, (refl, (refl, (refl, (refl, (refl, tt))))))))),
    refl,
  )
  call-IsFilled (peek_port_value topic connected none) sh =
      (_, (refl, refl, refl, (refl, (refl, (refl, (refl, (refl, (refl, (refl, tt)))))))), refl)
  call-IsFilled (peek_port_value topic connected (some id)) sh =
      (_, (refl, refl, refl, (refl, (refl, (refl, (refl, (refl, (refl, (refl, tt)))))))), refl)
  call-IsFilled (get_port_value topic connected none) sh =
      (_, (refl, refl, refl, (refl, (refl, (refl, (refl, (refl, (refl, (refl, tt)))))))), refl)
  call-IsFilled (get_port_value topic connected (some id)) sh =
      (_, (refl, refl, refl, (refl, (refl, (refl, (refl, (refl, (refl, (refl, tt)))))))), refl)
  call-IsFilled (execution_time finish duration name) sh =
      (_, (refl, refl, refl, (refl, (refl, (refl, (refl, (refl, (refl, (refl, tt)))))))), refl)
  call-IsFilled (trigger_activation time topic) sh =
      (_, (refl, refl, refl, (refl, (refl, (refl, (refl, (refl, (refl, tt))))))), refl)
  call-IsFilled (trigger_exec finish duration handler topic time) sh = (
    _,
    (refl, refl, refl, (refl, (refl, (refl, (refl, (refl, (refl, (refl, (refl, tt))))))))),
    refl,
  )

  -- what is in the store after a call that wrote an event
  unfoldable pub IsWritten : Call F → ValueStore (TraceEvent F) → Type 0
  IsWritten cl st =
      (ev : TraceEvent F) × (get_value g.topic st ≡ some ev)
      × (ev.class ≡ class_of cl)
      × (ev.id ≡ sur.random_id)
      × Fields cl ev.attributes
      × ((do
        (vs, typeid) ← serialize (class_of cl) ev.attributes
        unpack zero_time (class_of cl) (packed vs typeid))
          ≡ ok ev.attributes)

  get_value-written :
      (k : String) (v : TraceEvent F) (st : ValueStore (TraceEvent F))
      → get_value k (write_value k v st).0 ≡ some v
  get_value-written k v st = ground (arith, get_value-write_value k k v st, string_eq.beq_iff k k)

  write_trace_event-Written :
      (cl : Call F) (ev : TraceEvent F) (sh : Shared)
      → IsFilled cl ev
      → (st : ValueStore (TraceEvent F)) × (s : S) × (write_trace_event zero_time r sur g ev sh
          ≡ ok (st, s))
        × IsWritten cl st
  unfolding IsFilled IsWritten write_trace_event
  write_trace_event-Written cl ev (st, s) (cls, id, shape, fields) =
      let sent = record ev { id = sur.random_id } in
      let e : write_trace_event zero_time r sur g ev (st, s)
          ≡ set_value r g.topic (some sent) (st, s) =
        ground (arith, nat_beq_iff ev.id 0) in
      (
        (write_value g.topic sent st).0,
        _,
        e ∙ set_value_lem r g.topic sent st s,
        (
          sent,
          get_value-written g.topic sent st,
          cls,
          refl,
          fields,
          unpack-serialize zero_time (class_of cl) ev.attributes shape,
        ),
      )

  -- With both the generator and the controller enabled, each of the six calls succeeds and leaves at
  -- the generator's topic an event of its class with a random id, the ids of recording and thread, the
  -- component, the cpu id -1, and the arguments of the call: the unnamed port with its topic and
  -- connection, or the trigger with its topic and time, and the value ids, times, names and durations.
  -- Its serialized form is unpacked to the same attributes. Otherwise the call changes nothing.
  pub call-Outcome :
      (cl : Call F) (sh : Shared)
      → ((g.enabled ≡ true)
          × (c.trace_enabled ≡ true)
          × ((st : ValueStore (TraceEvent F)) × (s : S) × (call cl sh ≡ ok (st, s))
              × IsWritten cl st))
        ⊎ (((g.enabled ≡ false) ⊎ (c.trace_enabled ≡ false)) × (call cl sh ≡ ok sh))
  unfolding traced
  call-Outcome cl sh =
      let (ev, filled, e) = call-IsFilled cl sh in
      elim (Bool-cases g.enabled) [
        | inr off ↦ inr (inl off, ground (arith, e))
        | inl on ↦ elim (Bool-cases c.trace_enabled) [
          | inr off ↦ inr (inr off, ground (arith, e))
          | inl on' ↦
              (let (st, s, e', written) = write_trace_event-Written cl ev sh filled in
                inl (on, on', (st, s, ground (arith, e, e'), written)))
        ]
      ]
