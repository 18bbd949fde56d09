-- ===== src/Examples/Recording.antt =====
-- The recorder and the reader, with a codec whose packed objects are one byte each.
use flux_mcf.Prelude.{
  ℕ, zero, suc, ◌+◌, String, ◌≡◌, refl, true, false, Option, none, some, List, [], ◌∷◌, map,
  keep_if, nat_beq, ok, ◌⊎◌, inl, inr, arith,
}
use flux_mcf.Recorder.Queue.{QueueEntry}
use flux_mcf.Recorder.Format.{Packed, Codec, CodecLaws}
use flux_mcf.Recorder.Monitor.{Monitor}
use flux_mcf.Recorder.Monitor.Averages.{IsSound}
use flux_mcf.Recorder.Writer.{Serialized, Recorder, serialize_entry, drain}
use flux_mcf.Recorder.Writer.Contents.{items_of, serialize_all, record-read}
use flux_mcf.Prelude.Dict.{lookup}
use flux_mcf.Recorder.Writer.Draining.{Drained, drain-Drained}
use flux_mcf.Recorder.Writer.Reports.{serialize_entry-IsSound}
use flux_mcf.Reader.{Record, records_generator}
use flux_mcf.Reader.RoundTrip.{Item, shown, view, all_bytes, records_generator-encode}

-- a packed object, or a byte of data
abbrev Sample : Type 0
Sample = Packed ℕ ⊎ ℕ

abbrev unpack_sample : List Sample → Option (Packed ℕ × ℕ)
unpack_sample [] = none
unpack_sample (inl o ∷ rest) = some (o, 1)
unpack_sample (inr n ∷ rest) = none

abbrev tail_of : List Sample → List Sample
tail_of [] = []
tail_of (b ∷ rest) = rest

abbrev codec : Codec ℕ Sample
codec = record {
  packb = λ o. inl o ∷ [];
  unpack = unpack_sample;
  compress = λ d. some (inr 0 ∷ d);
  decompress = tail_of;
}

codec-CodecLaws : CodecLaws codec
codec-CodecLaws = record {
  unpack-packb = λ o rest. refl;
  unpack-nil = refl;
  decompress-compress = λ d z h. go d z h;
  compress_nonempty = λ d z h. ground arith;
}
  where
    go : (d z : List Sample) → some (inr 0 ∷ d) ≡ some z → tail_of z ≡ d
    go d z h = ground arith

abbrev sample : ℕ → Option (Serialized ℕ Sample)
sample zero = none
sample (suc n) =
    some
      (record { content = n; typeid = "msg::Sample"; extmem = some (inr 7 ∷ inr 8 ∷ []); id = 5 })

abbrev monitor : Monitor
monitor = record {
  bytes_written = 0;
  total_latency = 0;
  total_queue_size = 0;
  num_writes = 0;
  last_out_time = 0;
  drop_count = 0;
  max_latency = 0;
  max_queue_size = 0;
  drop_flag = false;
  error_flag = false;
  error_descs = [];
  published = [];
}

abbrev recorder : Recorder ℕ Sample
recorder = record {
  queue = record { deque = []; topic_id_map = []; expired = false };
  file = some [];
  status_monitor = monitor;
  queue_size_limit = 100;
  disabled_topics = "c" ∷ [];
  enabled_ext_mem_topics = "a" ∷ "b" ∷ [];
  compressed_ext_mem_topics = "b" ∷ [];
  thread = true;
  stop_request = false;
}

abbrev entry : String → ℕ → QueueEntry ℕ
entry topic value = record { time = 1000; topic = topic; value = value }

abbrev entries : List ((ℕ → ℕ) × QueueEntry ℕ)
entries =
    (λ n. 2000000 + n, entry "a" 3)
    ∷ (λ n. 2000100 + n, entry "c" 4)
    ∷ (λ n. 2000200 + n, entry "b" 5)
    ∷ (λ n. 2000300 + n, entry "a" 0)
    ∷ []

record-read_example :
    (file : List Sample) × (rs : List (Record ℕ)) × ((serialize_all codec sample entries
        recorder).file
      ≡ some file)
    × (map (view codec file) rs ≡ map shown (items_of codec sample recorder entries))
    × (records_generator codec file 5 (λ r. nat_beq r.valueid 5)
        ≡ ok (keep_if (λ r. nat_beq r.valueid 5) rs, true))
record-read_example =
    record-read codec sample entries recorder (λ r. nat_beq r.valueid 5) 5 codec-CodecLaws refl
      (omega arith)

abbrev item : Item ℕ Sample
item = record {
  time = 12;
  topic = "b";
  serialized = record { content = 4; typeid = "msg::Sample"; extmem = some (inr 7 ∷ []); id = 6 };
  enabled = true;
  compressed = true;
}

records_generator-encode_example :
    (rs : List (Record ℕ)) × (map (view codec (all_bytes codec (item ∷ item ∷ []))) rs
      ≡ map shown (item ∷ item ∷ []))
    × (records_generator codec (all_bytes codec (item ∷ item ∷ [])) 3 (λ r. r.extmem_present)
        ≡ ok (keep_if (λ r. r.extmem_present) rs, true))
records_generator-encode_example =
    records_generator-encode codec (λ r. r.extmem_present) (item ∷ item ∷ []) 3 codec-CodecLaws
      (omega arith)

monitor-IsSound : IsSound monitor
monitor-IsSound = record { latency = omega arith; queue_size = omega arith; statuses = tt }

serialize_entry-IsSound_example :
    IsSound (serialize_entry codec sample (λ n. 2000000 + n) (entry "a" 3) recorder).status_monitor
serialize_entry-IsSound_example =
    serialize_entry-IsSound codec sample (λ n. 2000000 + n) (entry "a" 3) recorder (omega arith)
      monitor-IsSound

-- two entries, of which the size limit drops the first
abbrev backlog : Recorder ℕ Sample
backlog = record recorder {
  queue = record {
    deque =
        record { time = 1; topic_id = 3; value = 4 }
        ∷ record { time = 2; topic_id = 3; value = 5 }
        ∷ [];
    topic_id_map = (3, "a") ∷ [];
    expired = false;
  };
  queue_size_limit = 1;
}

drain-Drained_example :
    Drained codec sample backlog (drain codec sample 3 (λ k n. 900000 + n) backlog)
unfolding lookup
drain-Drained_example =
    drain-Drained codec sample 3 (λ k n. 900000 + n) backlog (omega arith)
      (("a", refl), (("a", refl), tt)) (λ k. omega arith)
