-- ===== src/Ctf/Layout.antt =====
-- The format that mcf_tools/component_tracing/ctf_metadata.py declares, and a reader that follows it.
use flux_mcf.Prelude.{
  ℕ, suc, ◌+◌, ◌-◌, ◌*◌, ◌^◌, String, Option, none, some, List, [], ◌∷◌, ◌++◌, length, take, drop,
  ltb, leb, nat_beq, if◌then◌else◌,
}
use flux_mcf.Tracing.Messages.{ℤ, pos, negsuc}
use flux_mcf.Ctf.{Bytes, Codec, Field, unsigned, signed, string, float}

-- the types of the fields
pub data FieldType : Type 0 where
  uint : ℕ → FieldType
  int32 string_type float_type : FieldType

abbrev pub StructType : Type 0
StructType = List (String × FieldType)

abbrev pub uint8 : FieldType
uint8 = uint 1

abbrev pub uint64 : FieldType
uint64 = uint 8

-- event.header of the stream
abbrev pub event_header : StructType
event_header = ("id", uint 2) ∷ ("timestamp", uint64) ∷ []

-- the fields that most events have first and last
abbrev pub framed : StructType → StructType
framed fields =
    ("trace_id", string_type)
    ∷ ("component", string_type)
    ∷ (fields ++ ("thread_id", int32) ∷ ("cpu_id", int32) ∷ [])

abbrev pub port_event : StructType
port_event = framed (
    ("port.name", string_type)
    ∷ ("port.topic", string_type)
    ∷ ("port.connected", uint8)
    ∷ ("value_id", uint64)
    ∷ [])

abbrev pub exec_event : StructType
exec_event = framed (("description", string_type) ∷ ("exec_time", float_type) ∷ [])

abbrev pub handler_event : StructType
handler_event = framed (
    ("trigger.topic", string_type)
    ∷ ("trigger.trigger_time", uint64)
    ∷ ("exec_time", float_type)
    ∷ [])

abbrev pub box_event : StructType
box_event =
    ("trace_id", string_type)
    ∷ ("box_name", string_type)
    ∷ ("box_id", uint 4)
    ∷ ("completion_status_id", uint 4)
    ∷ ("completion_status", string_type)
    ∷ []

-- the events by their id, with their names
unfoldable pub layout : List (ℕ × String × StructType)
layout =
    (10, "port_write", port_event)
    ∷ (20, "port_read", port_event)
    ∷ (25, "port_peek", port_event)
    ∷ (30, "exec_start", exec_event)
    ∷ (35, "exec_end", exec_event)
    ∷ (
      40,
      "port_trigger_act",
      framed (("trigger.topic", string_type) ∷ ("trigger.trigger_time", uint64) ∷ []),
    )
    ∷ (50, "port_handler_start", handler_event)
    ∷ (55, "port_handler_end", handler_event)
    ∷ (60, "remote_transfer_start", exec_event)
    ∷ (65, "remote_transfer_end", exec_event)
    ∷ (70, "time_box_start", box_event)
    ∷ (75, "time_box_end", box_event)
    ∷ (80, "program_flow", framed (("eventName", string_type) ∷ []))
    ∷ []

unfoldable pub event_type : ℕ → List (ℕ × String × StructType) → Option (String × StructType)
event_type id [] = none
event_type id ((k, name, types) ∷ rest) =
    if nat_beq k id then some (name, types) else event_type id rest

-- a number from its bytes, the lowest first
unfoldable pub number_of : Bytes → ℕ
number_of [] = 0
number_of (b ∷ bs) = b + 256 * number_of bs

unfoldable pub signed_of : ℕ → ℤ
signed_of n = if ltb n (2 ^ 31) then pos n else negsuc (2 ^ 32 - suc n)

-- a string up to its NUL, and what comes after it
unfoldable pub until_nul : Bytes → Option (Bytes × Bytes)
until_nul [] = none
until_nul (b ∷ bs) =
    if nat_beq b 0
    then some ([], bs)
    else elim (until_nul bs) [ none ↦ none | some (s, rest) ↦ some (b ∷ s, rest) ]

-- some bytes and what comes after them
unfoldable pub front : ℕ → Bytes → Option (Bytes × Bytes)
front n bs = if leb n (length bs) then some (take n bs, drop n bs) else none

module _ {F : Type 0} (codec : Codec F) where
  unfoldable pub read_field : FieldType → Bytes → Option (Field F × Bytes)
  unfolding number_of signed_of until_nul front
  read_field (uint w) bs = elim (front w bs) [
    | none ↦ none
    | some (b, rest) ↦ some (unsigned w (pos (number_of b)), rest)
  ]
  read_field int32 bs = elim (front 4 bs) [
    | none ↦ none
    | some (b, rest) ↦ some (signed (signed_of (number_of b)), rest)
  ]
  read_field string_type bs = elim (until_nul bs) [
    | none ↦ none
    | some (b, rest) ↦ some (string (codec.decode b), rest)
  ]
  read_field float_type bs = elim (front 4 bs) [
    | none ↦ none
    | some (b, rest) ↦ some (float (codec.unpack_float b), rest)
  ]

  unfoldable pub read_struct : StructType → Bytes → Option (List (String × Field F) × Bytes)
  unfolding read_field
  read_struct [] bs = some ([], bs)
  read_struct ((name, t) ∷ types) bs = elim (read_field t bs) [
    | none ↦ none
    | some (f, rest) ↦ elim (read_struct types rest) [
      | none ↦ none
      | some (fs, rest') ↦ some ((name, f) ∷ fs, rest')
    ]
  ]

  -- the id that a header starts with
  unfoldable pub id_of : List (String × Field F) → Option ℕ
  id_of ((name, unsigned w (pos id)) ∷ fields) = some id
  id_of _ = none

  -- an event: its name, the fields of its header and its own, and what comes after it
  unfoldable pub read_event : Bytes → Option (String × List (String × Field F) × Bytes)
  unfolding read_struct event_type layout id_of
  read_event bs = elim (read_struct event_header bs) [
    | none ↦ none
    | some (head, rest) ↦ elim (id_of head) [
      | none ↦ none
      | some id ↦ elim (event_type id layout) [
        | none ↦ none
        | some (name, types) ↦ elim (read_struct types rest) [
          | none ↦ none
          | some (fields, rest') ↦ some (name, head ++ fields, rest')
        ]
      ]
    ]
  ]
