-- ===== src/Recorder/Writer.antt =====
-- `ValueRecorder` of mcf_py/mcf_core/value_recorder.py. The file is the list of the bytes written so
-- far. `serialize` of a value is a parameter that gives `none` for what is no MCF value. The
-- settings are read and changed under the recorder's lock, so each of those parts is one step.
pub mod Contents
pub mod Reports
pub mod Draining
use flux_mcf.Prelude.{
  ℕ, zero, suc, ◌+◌, ◌*◌, ◌/◌, ◌%◌, String, Bool, true, false, not, ◌||◌, Option, none, some, List,
  [], ◌∷◌, ◌++◌, any_of, length, ltb, ◌==◌, string_eq, if◌then◌else◌, Result, ok, ◌>>=◌,
}
use flux_mcf.ValueStore.{ValueStore, add_all_topic_receiver}
use flux_mcf.Recorder.Queue
use flux_mcf.Recorder.Queue.{Queue, QueueEntry}
use flux_mcf.Recorder.Monitor.{
  Monitor, start, serialize_begin, serialize_end, report_write_error, report_dropped,
  inc_bytes_written,
}
use flux_mcf.Recorder.Format.{Packed, header, body, extmem_header, Codec}

-- what `value.serialize()` returns, with the value's id
pub record Serialized (A B : Type 0) : Type 0 where
  pub content : A
  pub typeid : String
  pub extmem : Option (List B)
  pub id : ℕ

pub record Recorder (V B : Type 0) : Type 0 where
  pub queue : Queue V
  pub file : Option (List B)
  pub status_monitor : Monitor
  pub queue_size_limit : ℕ
  pub disabled_topics : List String
  pub enabled_ext_mem_topics : List String
  pub compressed_ext_mem_topics : List String
  pub thread : Bool
  pub stop_request : Bool

abbrev pub member : String → List String → Bool
member t ts = any_of (λ u. u == t) ts

-- set.add
unfoldable pub add : String → List String → List String
add t ts = if member t ts then ts else ts ++ t ∷ []

abbrev pub recorder_status_topic : String
recorder_status_topic = "/mcf/recorder/status"

-- the header's time in milliseconds
abbrev pub timestamp_ms : ℕ → ℕ
timestamp_ms now = now / 1000000 * 1000 + now % 1000000 / 1000

-- the three fields of ExtMemHeader, the data that is written, and whether zlib failed
pub record ExtMem (B : Type 0) : Type 0 where
  pub extmem_size : ℕ
  pub extmem_present : Bool
  pub extmem_size_compressed : ℕ
  pub written : List B
  pub failed : Bool

abbrev pub no_extmem : {B : Type 0} → ExtMem B
no_extmem = record {
  extmem_size = 0;
  extmem_present = false;
  extmem_size_compressed = 0;
  written = [];
  failed = false;
}

abbrev pub plain_extmem : {B : Type 0} → List B → Bool → ExtMem B
plain_extmem d failed = record {
  extmem_size = length d;
  extmem_present = true;
  extmem_size_compressed = 0;
  written = d;
  failed = failed;
}

-- with the result of zlib.compress
abbrev pub zipped_extmem : {B : Type 0} → List B → Option (List B) → ExtMem B
zipped_extmem d none = plain_extmem d true
zipped_extmem d (some z) = record {
  extmem_size = length d;
  extmem_present = true;
  extmem_size_compressed = length z;
  written = z;
  failed = false;
}

-- the part of _serialize on extmem data
unfoldable pub pack_extmem :
    {B : Type 0} → (List B → Option (List B)) → Bool → Bool → Option (List B) → ExtMem B
pack_extmem compress enabled compressed none = no_extmem
pack_extmem compress false compressed (some d) = no_extmem
pack_extmem compress true false (some d) = plain_extmem d false
pack_extmem compress true true (some d) = zipped_extmem d (compress d)

-- the entries of `data`, one after the other
unfoldable pub encode : {A B : Type 0} → Codec A B → ℕ → String → Serialized A B → ExtMem B → List B
encode codec time topic s ext =
    codec.packb (header time topic s.typeid s.id)
    ++ (codec.packb (body s.content)
        ++ (codec.packb
              (extmem_header ext.extmem_size ext.extmem_present (some ext.extmem_size_compressed))
            ++ ext.written))

-- the error is reported by its topic
unfoldable pub report_failed : {B : Type 0} → ExtMem B → String → Monitor → Monitor
report_failed ext topic m = if ext.failed then report_write_error topic m else m

module _ {V A B : Type 0} (codec : Codec A B) (serialize : V → Option (Serialized A B)) where
  -- The end of _serialize, for an MCF value and an open file. The readings of the clock are those of
  -- serialize_begin, of the header, of serialize_end and of _output_status.
  unfoldable pub write_record :
      (ℕ → ℕ) → ℕ → String → Serialized A B → List B → Recorder V B → Recorder V B
  unfolding encode pack_extmem report_failed
  write_record clock record_time topic s file r =
      let ext =
        pack_extmem codec.compress (member topic r.enabled_ext_mem_topics)
          (member topic r.compressed_ext_mem_topics) s.extmem in
      let bytes = encode codec (timestamp_ms (clock 1)) topic s ext in
      let begun = serialize_begin (clock 0) (Queue.size r.queue) record_time r.status_monitor in
      record r {
        file = some (file ++ bytes);
        status_monitor =
            serialize_end (clock 2) (clock 3)
              (inc_bytes_written (length bytes) (report_failed ext topic begun));
      }

  -- _serialize
  unfoldable pub serialize_entry : (ℕ → ℕ) → QueueEntry V → Recorder V B → Recorder V B
  unfolding write_record
  serialize_entry clock qe r =
      if member qe.topic r.disabled_topics then r else elim (serialize qe.value) [
        | none ↦ r
        | some s ↦ elim r.file [
          | none ↦ r
          | some file ↦ write_record clock qe.time qe.topic s file r
        ]
      ]

  -- an entry is serialized or dropped, by the number of entries that are left in the queue
  unfoldable pub handle : (ℕ → ℕ) → ℕ → QueueEntry V → Recorder V B → Recorder V B
  unfolding serialize_entry
  handle clock size qe r =
      if ltb size r.queue_size_limit || qe.topic == recorder_status_topic
      then serialize_entry clock qe r
      else record r { status_monitor = report_dropped r.status_monitor }

  -- The inner loop of write_thread, on fuel: the first `pop` before it and the one at its end are the
  -- pop of a pass. The Boolean says whether the queue was found empty.
  unfoldable pub drain : ℕ → (ℕ → ℕ → ℕ) → Recorder V B → Result (Recorder V B × Bool)
  unfolding handle
  drain zero clocks r = ok (r, false)
  drain (suc fuel) clocks r = do
    (queue, entry, size) ← Queue.pop r.queue
    let popped = record r { queue = queue }
    elim entry [
      | none ↦ ok (popped, true)
      | some qe ↦ drain fuel (λ n. clocks (suc n)) (handle (clocks 0) size qe popped)
    ]

module _ {V B : Type 0} where
  -- start, where `opened` says whether the file could be opened and `reference` is the queue's
  unfoldable pub start_recording :
      Bool → ℕ → ValueStore V × Recorder V B → ValueStore V × Recorder V B
  start_recording opened reference (st, r) = elim r.file [
    | some f ↦ (st, r)
    | none ↦
        if opened
        then (
          add_all_topic_receiver reference st,
          record r { file = some []; thread = true; stop_request = false },
        )
        else (st, r)
  ]

  -- the loop of write_thread ends after the pass in which the stop was requested
  unfoldable pub set_stop_request : Recorder V B → Recorder V B
  set_stop_request r = record r { queue = Queue.expire r.queue; stop_request = true }

  -- stop, whose `join` returns when the thread has ended
  unfoldable pub stop : Recorder V B → Recorder V B
  unfolding set_stop_request
  stop r = elim r.file [
    | none ↦ r
    | some f ↦ record (set_stop_request r) { thread = false; file = none }
  ]

  unfoldable pub enable_ext_mem_serialization : String → Recorder V B → Recorder V B
  unfolding add
  enable_ext_mem_serialization t r = record r {
    enabled_ext_mem_topics = add t r.enabled_ext_mem_topics;
  }

  unfoldable pub enable_ext_mem_compression : String → Recorder V B → Recorder V B
  unfolding add
  enable_ext_mem_compression t r = record r {
    compressed_ext_mem_topics = add t r.compressed_ext_mem_topics;
  }

  unfoldable pub set_write_queue_size_limit : ℕ → Recorder V B → Recorder V B
  set_write_queue_size_limit limit r = record r { queue_size_limit = limit }

  unfoldable pub disable_serialization : String → Recorder V B → Recorder V B
  unfolding add
  disable_serialization t r = record r { disabled_topics = add t r.disabled_topics }
