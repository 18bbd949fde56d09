-- ===== src/Ctf/Reading.antt =====
-- What a reader that follows the metadata finds in the records of an event.
use flux_mcf.Prelude.{◌≡◌, refl, List, All, ok, bind-ok, string_eq}
use flux_mcf.Tracing.Messages.{ℤ}
use flux_mcf.Ctf.{Bytes, Codec, CodecLaws, HasNoNul}
use flux_mcf.Ctf.Events.{
  ParsedEvent, port_write, port_read, port_peek, exec_time, remote_transfer_time, trigger_act,
  trigger_exec, program_flow, time_box, port_fields, duration_fields, activation_fields,
  handler_fields, flow_fields, box_fields, event_to_ctf,
}
use flux_mcf.Ctf.Layout.{layout, event_type}
use flux_mcf.Ctf.Ranges.{IsConvertible, event_to_ctf-Packs}
use flux_mcf.Ctf.Records.{
  one-AreRead, two-AreRead, port-IsRead, duration-IsRead, handler-IsRead, box-IsRead,
  activation-IsRead, flow-IsRead,
}
use flux_mcf.Ctf.Details.{AreRead, details, marks, texts}

module _ {F : Type 0} (codec : Codec F) (laws : CodecLaws codec) where
  -- In each record of an event without NULs in its texts that is converted without an error, a reader that follows the metadata
  -- finds, whatever comes after it, the event of the right name, with the time of the record
  -- and the fields of the event under their names, floats in single precision.
  event_to_ctf-AreRead :
      (ev : ParsedEvent F) (records : List (ℤ × Bytes)) (rest : Bytes)
      → All HasNoNul (texts ev)
      → event_to_ctf codec ev ≡ ok records
      → AreRead codec rest (details codec ev) (marks codec ev) records
  unfolding event_to_ctf layout event_type
  event_to_ctf-AreRead (port_write c p v ids) records rest clean h =
      one-AreRead codec laws rest (details codec (port_write c p v ids)) _ c.timestamp
        (port_fields 10 c p v) records h
        (port-IsRead codec laws 10 "port_write" refl c p v clean rest)
  event_to_ctf-AreRead (port_read c p v) records rest clean h =
      one-AreRead codec laws rest (details codec (port_read c p v)) _ c.timestamp
        (port_fields 20 c p v) records h
        (port-IsRead codec laws 20 "port_read" refl c p v clean rest)
  event_to_ctf-AreRead (port_peek c p v) records rest clean h =
      one-AreRead codec laws rest (details codec (port_peek c p v)) _ c.timestamp
        (port_fields 25 c p v) records h
        (port-IsRead codec laws 25 "port_peek" refl c p v clean rest)
  event_to_ctf-AreRead (exec_time c d f) records rest clean h =
      let (start, e, h') = bind-ok (codec.start_of c.timestamp f) _ records h in
      two-AreRead codec laws rest (details codec (exec_time c d f)) _ _ start c.timestamp _ _
        (duration_fields 30 start c d f) (duration_fields 35 c.timestamp c d f) records h' e refl
        (duration-IsRead codec laws 30 "exec_start" refl start c d f clean rest)
        (duration-IsRead codec laws 35 "exec_end" refl c.timestamp c d f clean rest)
  event_to_ctf-AreRead (remote_transfer_time c d f) records rest clean h =
      let (start, e, h') = bind-ok (codec.start_of c.timestamp f) _ records h in
      two-AreRead codec laws rest (details codec (remote_transfer_time c d f)) _ _ start c.timestamp
        _ _ (duration_fields 60 start c d f) (duration_fields 65 c.timestamp c d f) records h' e
        refl (duration-IsRead codec laws 60 "remote_transfer_start" refl start c d f clean rest)
        (duration-IsRead codec laws 65 "remote_transfer_end" refl c.timestamp c d f clean rest)
  event_to_ctf-AreRead (trigger_act c t n) records rest clean h =
      one-AreRead codec laws rest (details codec (trigger_act c t n)) _ c.timestamp
        (activation_fields c t n) records h (activation-IsRead codec laws c t n clean rest)
  event_to_ctf-AreRead (trigger_exec c t n d f) records rest clean h =
      let (start, e, h') = bind-ok (codec.start_of c.timestamp f) _ records h in
      two-AreRead codec laws rest (details codec (trigger_exec c t n d f)) _ _ start c.timestamp _ _
        (handler_fields 50 start c t n f) (handler_fields 55 c.timestamp c t n f) records h' e refl
        (handler-IsRead codec laws 50 "port_handler_start" refl start c t n f clean rest)
        (handler-IsRead codec laws 55 "port_handler_end" refl c.timestamp c t n f clean rest)
  event_to_ctf-AreRead (program_flow c n ids) records rest clean h =
      one-AreRead codec laws rest (details codec (program_flow c n ids)) _ c.timestamp
        (flow_fields c n) records h (flow-IsRead codec laws c n clean rest)
  event_to_ctf-AreRead (time_box x) records rest clean h =
      let (finish, e, h') = bind-ok (codec.end_of x.timestamp x.exec_time) _ records h in
      two-AreRead codec laws rest (details codec (time_box x)) _ _ x.timestamp finish _ _
        (box_fields 70 x.timestamp x) (box_fields 75 finish x) records h' refl e
        (box-IsRead codec laws 70 "time_box_start" refl x.timestamp x clean rest)
        (box-IsRead codec laws 75 "time_box_end" refl finish x clean rest)

  -- An event without NULs in its texts, whose texts have an encoding, whose numbers fit their fields
  -- and whose other time, where its duration gives one, is a number, is converted without an error to
  -- the records of its type, each at its time: the timestamp of the event, or that less the duration
  -- for a start, or that plus the duration for the end of a time box. A reader that follows the
  -- metadata finds in each record, whatever comes after it, the event of the right name with that
  -- time, and the recording, the component, the thread and the other fields that the metadata has for
  -- the event, floats in single precision; for a time box, its id, names and status.
  pub event_to_ctf-Converts :
      (ev : ParsedEvent F) (rest : Bytes)
      → All HasNoNul (texts ev)
      → IsConvertible codec ev
      → (records : List (ℤ × Bytes)) × (event_to_ctf codec ev ≡ ok records)
        × AreRead codec rest (details codec ev) (marks codec ev) records
  event_to_ctf-Converts ev rest clean fits =
      let (records, e) = event_to_ctf-Packs codec ev fits in
      (records, e, event_to_ctf-AreRead ev records rest clean e)
