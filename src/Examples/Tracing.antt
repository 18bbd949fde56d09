-- ===== src/Examples/Tracing.antt =====
-- Trace events and their messages.
use flux_mcf.Prelude.{
  ℕ, ◌≡◌, ◌⊎◌, refl, true, false, some, [], ◌∷◌, ok, raise, value_error, type_error, key_error,
  ◌>>=◌,
}
use flux_mcf.Receivers.{Receivers}
use flux_mcf.ValueStore.{ValueStore, new_store}
use flux_mcf.Tracing.Messages.{
  Attributes, text, flag, attribute, end, Packed, packed, nil, dataclass_fields, port_descriptor,
  serialize, unpack,
}
use flux_mcf.Tracing.Messages.RoundTrip.{
  IsObject, IsAccepted, LacksLength, LacksEntry, unpack-serialize, unpack-Outcome,
}
use flux_mcf.Tracing.Generator.{Controller, Generator, Surroundings, TraceEvent}
use flux_mcf.Tracing.Generator.Written.{Call, set_port_value, call, IsWritten, call-Outcome}

-- the attributes of PortDescriptor("out", "/topic", True)
abbrev port : Attributes ℕ
port =
    attribute "name" (text "out")
      (attribute "topic" (text "/topic") (attribute "connected" (flag true) end))

unpack-serialize_example :
    (do (vs, id) ← serialize port_descriptor port; unpack 0 port_descriptor (packed vs id))
    ≡ ok port
unfolding IsObject dataclass_fields
unpack-serialize_example = unpack-serialize 0 port_descriptor port refl

-- a sequence of no fields, where three are wanted
abbrev too_short : Packed ℕ
too_short = packed nil "mcf::PortDescriptor"

unpack-Outcome_example :
    (IsAccepted port_descriptor too_short
      × ((fields : Attributes ℕ) × IsObject 0 port_descriptor fields
          × (unpack 0 port_descriptor too_short ≡ ok fields)))
    ⊎ (LacksLength port_descriptor too_short
        × (unpack 0 port_descriptor too_short ≡ raise type_error))
    ⊎ (LacksEntry port_descriptor too_short
        × (unpack 0 port_descriptor too_short ≡ raise key_error))
    ⊎ ((¬ IsAccepted port_descriptor too_short)
        × (¬ LacksLength port_descriptor too_short)
        × (¬ LacksEntry port_descriptor too_short)
        × (unpack 0 port_descriptor too_short ≡ raise value_error))
unpack-Outcome_example = unpack-Outcome 0 port_descriptor too_short

-- no receiver does anything
abbrev silent : Receivers (TraceEvent ℕ) ℕ
silent = record { receive = λ i t v s. (s, false); expired = λ i s. false }

abbrev controller : Controller
controller = record { trace_id = "t"; topic = "/trace"; trace_enabled = true }

abbrev generator : Generator
generator = record { trace_id = "t"; name = "c"; topic = "/trace"; enabled = true }

abbrev surroundings : Surroundings
surroundings = record { now = record { secs = 3; microsecond = 4 }; thread_id = 5; random_id = 6 }

abbrev write_call : Call ℕ
write_call = set_port_value "/topic" true (some (1 ∷ 2 ∷ [])) (some 7)

call-Outcome_example :
    ((true ≡ true)
      × (true ≡ true)
      × ((st : ValueStore (TraceEvent ℕ)) × (n : ℕ) × (call 0 silent surroundings controller
              generator write_call
              (new_store, 0)
            ≡ ok (st, n))
          × IsWritten 0 silent surroundings controller generator write_call st))
    ⊎ (((true ≡ false) ⊎ (true ≡ false))
        × (call 0 silent surroundings controller generator write_call (new_store, 0)
            ≡ ok (new_store, 0)))
call-Outcome_example =
    call-Outcome 0 silent surroundings controller generator write_call (new_store, 0)
