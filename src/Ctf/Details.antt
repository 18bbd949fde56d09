-- ===== src/Ctf/Details.antt =====
-- What the records of an event say of it, by the names of the metadata.
use flux_mcf.Prelude.{String, ◌≡◌, some, List, [], ◌∷◌, ◌++◌, All, string_eq, Result, ok}
use flux_mcf.Prelude.Dict.{lookup}
use flux_mcf.Prelude.Text.{Text}
use flux_mcf.Tracing.Messages.{ℤ}
use flux_mcf.Ctf.{Bytes, Codec, Field, unsigned, signed, string, float}
use flux_mcf.Ctf.Events.{
  Common, Port, ParsedEvent, port_write, port_read, port_peek, exec_time, remote_transfer_time,
  trigger_act, trigger_exec, program_flow, time_box, bit,
}
use flux_mcf.Ctf.Layout.{read_event}

module _ {F : Type 0} where
  -- the texts in the records of an event
  abbrev pub texts : ParsedEvent F → List Text
  texts (port_write c p v ids) = c.recording_id ∷ c.component_name ∷ p.name ∷ p.topic ∷ []
  texts (port_read c p v) = c.recording_id ∷ c.component_name ∷ p.name ∷ p.topic ∷ []
  texts (port_peek c p v) = c.recording_id ∷ c.component_name ∷ p.name ∷ p.topic ∷ []
  texts (exec_time c d f) = c.recording_id ∷ c.component_name ∷ d ∷ []
  texts (remote_transfer_time c d f) = c.recording_id ∷ c.component_name ∷ d ∷ []
  texts (trigger_act c t n) = c.recording_id ∷ c.component_name ∷ t ∷ []
  texts (trigger_exec c t n d f) = c.recording_id ∷ c.component_name ∷ t ∷ []
  texts (program_flow c n ids) = c.recording_id ∷ c.component_name ∷ n ∷ []
  texts (time_box b) = b.trace_id ∷ b.box_name ∷ b.completion_status ∷ []

module _ {F : Type 0} (codec : Codec F) where
  abbrev pub common_details : Common → List (String × Field F) → List (String × Field F)
  common_details c more =
      ("trace_id", string c.recording_id)
      ∷ ("component", string c.component_name)
      ∷ ("thread_id", signed c.thread_id)
      ∷ ("cpu_id", signed c.cpu_id)
      ∷ more

  abbrev pub port_details : Common → Port → ℤ → List (String × Field F)
  port_details c p v = common_details c (
      ("port.name", string p.name)
      ∷ ("port.topic", string p.topic)
      ∷ ("port.connected", unsigned 1 (bit p.connected))
      ∷ ("value_id", unsigned 8 v)
      ∷ [])

  -- what the records of an event say of it, floats in single precision
  abbrev pub details : ParsedEvent F → List (String × Field F)
  details (port_write c p v ids) = port_details c p v
  details (port_read c p v) = port_details c p v
  details (port_peek c p v) = port_details c p v
  details (exec_time c d f) =
      common_details c (("description", string d) ∷ ("exec_time", float (codec.single f)) ∷ [])
  details (remote_transfer_time c d f) =
      common_details c (("description", string d) ∷ ("exec_time", float (codec.single f)) ∷ [])
  details (trigger_act c t n) =
      common_details c (("trigger.topic", string t) ∷ ("trigger.trigger_time", unsigned 8 n) ∷ [])
  details (trigger_exec c t n d f) = common_details c (
      ("trigger.topic", string t)
      ∷ ("trigger.trigger_time", unsigned 8 n)
      ∷ ("exec_time", float (codec.single f))
      ∷ [])
  details (program_flow c n ids) = common_details c (("eventName", string n) ∷ [])
  details (time_box b) =
      ("trace_id", string b.trace_id)
      ∷ ("box_name", string b.box_name)
      ∷ ("box_id", unsigned 4 b.box_id)
      ∷ ("completion_status_id", unsigned 4 b.completion_status_id)
      ∷ ("completion_status", string b.completion_status)
      ∷ []

  -- the names of the records of an event with their times, which may raise an error
  abbrev pub marks : ParsedEvent F → List (String × Result ℤ)
  marks (port_write c p v ids) = ("port_write", ok c.timestamp) ∷ []
  marks (port_read c p v) = ("port_read", ok c.timestamp) ∷ []
  marks (port_peek c p v) = ("port_peek", ok c.timestamp) ∷ []
  marks (exec_time c d f) =
      ("exec_start", codec.start_of c.timestamp f) ∷ ("exec_end", ok c.timestamp) ∷ []
  marks (remote_transfer_time c d f) =
      ("remote_transfer_start", codec.start_of c.timestamp f)
      ∷ ("remote_transfer_end", ok c.timestamp)
      ∷ []
  marks (trigger_act c t n) = ("port_trigger_act", ok c.timestamp) ∷ []
  marks (trigger_exec c t n d f) =
      ("port_handler_start", codec.start_of c.timestamp f)
      ∷ ("port_handler_end", ok c.timestamp)
      ∷ []
  marks (program_flow c n ids) = ("program_flow", ok c.timestamp) ∷ []
  marks (time_box b) =
      ("time_box_start", ok b.timestamp)
      ∷ ("time_box_end", codec.end_of b.timestamp b.exec_time)
      ∷ []

  -- The reader finds an event of a name in a record, whatever comes after it, with its time and the details.
  abbrev pub IsRead : Bytes → List (String × Field F) → String → ℤ × Bytes → Type 0
  IsRead rest ds name (time, b) =
      (fields : List (String × Field F)) × (read_event codec (b ++ rest)
        ≡ some (name, fields, rest))
      × (lookup "timestamp" fields ≡ some (unsigned 8 time))
      × All (λ (k, f). lookup k fields ≡ some f) ds

  -- each record has the time of its mark and is read
  abbrev pub AreRead :
      Bytes → List (String × Field F) → List (String × Result ℤ) → List (ℤ × Bytes) → Type 0
  AreRead rest ds [] [] = Unit
  AreRead rest ds ((name, time) ∷ ms) (r ∷ rs) =
      (time ≡ ok r.0) × IsRead rest ds name r × AreRead rest ds ms rs
  AreRead rest ds _ _ = ⊥
