-- ===== src/Ctf/Events.antt =====
-- The events of mcf_tools/component_tracing/event_serialization.py and their serializers.
use flux_mcf.Prelude.{ℕ, Bool, true, false, List, [], ◌∷◌, Result, ok, ◌>>=◌}
use flux_mcf.Prelude.Text.{Text}
use flux_mcf.Tracing.Messages.{ℤ, pos}
use flux_mcf.Ctf.{Bytes, Codec, Field, float, pack_all, signed, string, unsigned}

-- A parsed event. The ids of the inputs and the description of a trigger execution are in no record.
-- What all have but the time box:
pub record Common : Type 0 where
  pub timestamp : ℤ
  pub recording_id : Text
  pub component_name : Text
  pub thread_id : ℤ
  pub cpu_id : ℤ

pub record Port : Type 0 where
  pub name : Text
  pub topic : Text
  pub connected : Bool

pub record TimeBox (F : Type 0) : Type 0 where
  pub box_id : ℤ
  pub box_name : Text
  pub trace_id : Text
  pub timestamp : ℤ
  pub exec_time : F
  pub completion_status : Text
  pub completion_status_id : ℤ

pub data ParsedEvent (F : Type 0) : Type 0 where
  port_write : Common → Port → (value_id : ℤ) → (input_value_ids : List ℤ) → ParsedEvent F
  port_read port_peek : Common → Port → (value_id : ℤ) → ParsedEvent F
  exec_time remote_transfer_time : Common → (description : Text) → F → ParsedEvent F
  trigger_act : Common → (topic : Text) → (tstamp : ℤ) → ParsedEvent F
  trigger_exec : Common → (topic : Text) → (tstamp : ℤ) → (description : Text) → F → ParsedEvent F
  program_flow : Common → (event_name : Text) → (input_value_ids : List ℤ) → ParsedEvent F
  time_box : TimeBox F → ParsedEvent F

abbrev pub bit : Bool → ℤ
bit true = pos 1
bit false = pos 0

module _ {F : Type 0} where
  -- `struct.pack('<HQ', event_id, timestamp)`
  abbrev pub header : ℕ → ℤ → List (Field F) → List (Field F)
  header event_id timestamp fields = unsigned 2 (pos event_id) ∷ unsigned 8 timestamp ∷ fields

  abbrev pub thread_fields : Common → List (Field F)
  thread_fields c = signed c.thread_id ∷ signed c.cpu_id ∷ []

  unfoldable pub port_fields : ℕ → Common → Port → ℤ → List (Field F)
  port_fields event_id c p value_id = header event_id c.timestamp (
      string c.recording_id
      ∷ string c.component_name
      ∷ string p.name
      ∷ string p.topic
      ∷ unsigned 1 (bit p.connected)
      ∷ unsigned 8 value_id
      ∷ thread_fields c)

  -- an event that begins or ends at a time
  unfoldable pub duration_fields : ℕ → ℤ → Common → Text → F → List (Field F)
  duration_fields event_id time c description duration = header event_id time (
      string c.recording_id
      ∷ string c.component_name
      ∷ string description
      ∷ float duration
      ∷ thread_fields c)

  unfoldable pub activation_fields : Common → Text → ℤ → List (Field F)
  activation_fields c topic tstamp = header 40 c.timestamp (
      string c.recording_id
      ∷ string c.component_name
      ∷ string topic
      ∷ unsigned 8 tstamp
      ∷ thread_fields c)

  unfoldable pub handler_fields : ℕ → ℤ → Common → Text → ℤ → F → List (Field F)
  handler_fields event_id time c topic tstamp duration = header event_id time (
      string c.recording_id
      ∷ string c.component_name
      ∷ string topic
      ∷ unsigned 8 tstamp
      ∷ float duration
      ∷ thread_fields c)

  unfoldable pub flow_fields : Common → Text → List (Field F)
  flow_fields c event_name =
      header 80 c.timestamp
        (string c.recording_id ∷ string c.component_name ∷ string event_name ∷ thread_fields c)

  unfoldable pub box_fields : ℕ → ℤ → TimeBox F → List (Field F)
  box_fields event_id time b = header event_id time (
      string b.trace_id
      ∷ string b.box_name
      ∷ unsigned 4 b.box_id
      ∷ unsigned 4 b.completion_status_id
      ∷ string b.completion_status
      ∷ [])

module _ {F : Type 0} (codec : Codec F) where
  abbrev pub CtfRecords : Type 0
  CtfRecords = List (ℤ × Bytes)

  abbrev pub one_record : ℤ → List (Field F) → Result CtfRecords
  one_record time fields = do bdata ← pack_all codec fields; ok ((time, bdata) ∷ [])

  abbrev pub two_records : ℤ → List (Field F) → ℤ → List (Field F) → Result CtfRecords
  two_records start first end second = do
    bstart ← pack_all codec first
    bend ← pack_all codec second
    ok ((start, bstart) ∷ (end, bend) ∷ [])

  unfoldable pub port_write_to_ctf : Common → Port → ℤ → Result CtfRecords
  unfolding pack_all port_fields
  port_write_to_ctf c p value_id = one_record c.timestamp (port_fields 10 c p value_id)

  unfoldable pub port_read_to_ctf : Common → Port → ℤ → Result CtfRecords
  unfolding pack_all port_fields
  port_read_to_ctf c p value_id = one_record c.timestamp (port_fields 20 c p value_id)

  unfoldable pub port_peek_to_ctf : Common → Port → ℤ → Result CtfRecords
  unfolding pack_all port_fields
  port_peek_to_ctf c p value_id = one_record c.timestamp (port_fields 25 c p value_id)

  unfoldable pub exec_time_to_ctf : Common → Text → F → Result CtfRecords
  unfolding pack_all duration_fields
  exec_time_to_ctf c description duration = do
    start ← codec.start_of c.timestamp duration
    two_records start (duration_fields 30 start c description duration) c.timestamp
        (duration_fields 35 c.timestamp c description duration)

  unfoldable pub remote_transfer_time_to_ctf : Common → Text → F → Result CtfRecords
  unfolding pack_all duration_fields
  remote_transfer_time_to_ctf c description duration = do
    start ← codec.start_of c.timestamp duration
    two_records start (duration_fields 60 start c description duration) c.timestamp
        (duration_fields 65 c.timestamp c description duration)

  unfoldable pub port_trigger_act_to_ctf : Common → Text → ℤ → Result CtfRecords
  unfolding pack_all activation_fields
  port_trigger_act_to_ctf c topic tstamp = one_record c.timestamp (activation_fields c topic tstamp)

  unfoldable pub port_trigger_exec_to_ctf : Common → Text → ℤ → F → Result CtfRecords
  unfolding pack_all handler_fields
  port_trigger_exec_to_ctf c topic tstamp duration = do
    start ← codec.start_of c.timestamp duration
    two_records start (handler_fields 50 start c topic tstamp duration) c.timestamp
        (handler_fields 55 c.timestamp c topic tstamp duration)

  unfoldable pub program_flow_to_ctf : Common → Text → Result CtfRecords
  unfolding pack_all flow_fields
  program_flow_to_ctf c event_name = one_record c.timestamp (flow_fields c event_name)

  unfoldable pub time_box_to_ctf : TimeBox F → Result CtfRecords
  unfolding pack_all box_fields
  time_box_to_ctf b = do
    end ← codec.end_of b.timestamp b.exec_time
    two_records b.timestamp (box_fields 70 b.timestamp b) end (box_fields 75 end b)

  -- the serializer of the event's type
  unfoldable pub event_to_ctf : ParsedEvent F → Result CtfRecords
  unfolding port_write_to_ctf port_read_to_ctf port_peek_to_ctf exec_time_to_ctf
      remote_transfer_time_to_ctf port_trigger_act_to_ctf port_trigger_exec_to_ctf
      program_flow_to_ctf time_box_to_ctf
  event_to_ctf (port_write c p value_id ids) = port_write_to_ctf c p value_id
  event_to_ctf (port_read c p value_id) = port_read_to_ctf c p value_id
  event_to_ctf (port_peek c p value_id) = port_peek_to_ctf c p value_id
  event_to_ctf (exec_time c description duration) = exec_time_to_ctf c description duration
  event_to_ctf (remote_transfer_time c description duration) =
      remote_transfer_time_to_ctf c description duration
  event_to_ctf (trigger_act c topic tstamp) = port_trigger_act_to_ctf c topic tstamp
  event_to_ctf (trigger_exec c topic tstamp description duration) =
      port_trigger_exec_to_ctf c topic tstamp duration
  event_to_ctf (program_flow c event_name ids) = program_flow_to_ctf c event_name
  event_to_ctf (time_box b) = time_box_to_ctf b
