-- ===== src/Recorder/Writer/Reports.antt =====
-- The statuses that the recorder publishes while it writes.
use flux_mcf.Prelude.{
  ℕ, ◌≤◌, ◌<◌, String, ◌≡◌, subst, Option, List, Bool-cases, Option-cases, inl, inr, arith,
}
use flux_mcf.Recorder.Queue
use flux_mcf.Recorder.Queue.{QueueEntry}
use flux_mcf.Recorder.Format.{Codec}
use flux_mcf.Recorder.Monitor.{Monitor, serialize_begin, report_write_error, inc_bytes_written}
use flux_mcf.Recorder.Monitor.Averages.{IsSound, serialize_begin-IsSound, serialize_end-IsSound}
use flux_mcf.Recorder.Writer.{
  Serialized, Recorder, ExtMem, pack_extmem, member, report_failed, write_record, serialize_entry,
}

-- a report and a count of bytes change none of the totals
counted-IsSound :
    {B : Type 0} (n : ℕ) (e : ExtMem B) (topic : String) (m : Monitor)
    → IsSound m
    → 0 < m.num_writes
    → IsSound (inc_bytes_written n (report_failed e topic m))
      × (0 < (inc_bytes_written n (report_failed e topic m)).num_writes)
unfolding inc_bytes_written report_failed report_write_error
counted-IsSound n e topic m h some_writes = elim (Bool-cases e.failed) [
  | inl fails ↦ rw fails (
    record { latency = h.latency; queue_size = h.queue_size; statuses = h.statuses },
    some_writes,
  )
  | inr works ↦ rw works (
    record { latency = h.latency; queue_size = h.queue_size; statuses = h.statuses },
    some_writes,
  )
]

module _ {V A B : Type 0} (codec : Codec A B) (serialize : V → Option (Serialized A B)) where
  write_record-IsSound :
      (clock : ℕ → ℕ) (time : ℕ) (topic : String) (s : Serialized A B) (f : List B)
      (r : Recorder V B)
      → clock 2 ≤ clock 3
      → IsSound r.status_monitor
      → IsSound (write_record codec serialize clock time topic s f r).status_monitor
  unfolding write_record serialize_begin
  write_record-IsSound clock time topic s f r later h =
      let begun = serialize_begin-IsSound (clock 0) (Queue.size r.queue) time r.status_monitor h in
      let packed =
        pack_extmem codec.compress (member topic r.enabled_ext_mem_topics)
          (member topic r.compressed_ext_mem_topics) s.extmem in
      let counted = counted-IsSound _ packed topic _ begun (omega arith) in
      serialize_end-IsSound (clock 2) (clock 3) _ later counted.1 counted.0

  -- For the only recorder of a process: whatever entry is recorded, each status that has been published had at least one write and a
  -- period of more than nothing, so that its ratios divide by no zero, and its average latency and
  -- average queue size are at most the maximal ones, if that held before, and if the clock does not
  -- run backwards between its last two readings.
  pub serialize_entry-IsSound :
      (clock : ℕ → ℕ) (qe : QueueEntry V) (r : Recorder V B)
      → clock 2 ≤ clock 3
      → IsSound r.status_monitor
      → IsSound (serialize_entry codec serialize clock qe r).status_monitor
  unfolding serialize_entry
  serialize_entry-IsSound clock qe r later h =
      elim (Bool-cases (member qe.topic r.disabled_topics)) [
        | inl disabled ↦ rw disabled h
        | inr enabled ↦ elim (Option-cases (serialize qe.value)) [
          | inl no_value ↦
              let same : r ≡ serialize_entry codec serialize clock qe r = ground arith in
              subst (λ (x : Recorder V B). IsSound x.status_monitor) same h
          | inr (s, is_value) ↦ elim (Option-cases r.file) [
            | inl closed ↦
                let same : r ≡ serialize_entry codec serialize clock qe r = ground arith in
                subst (λ (x : Recorder V B). IsSound x.status_monitor) same h
            | inr (f, is_open) ↦
                let same : write_record codec serialize clock qe.time qe.topic s f r
                    ≡ serialize_entry codec serialize clock qe r =
                  ground arith in
                subst (λ (x : Recorder V B). IsSound x.status_monitor) same
                  (write_record-IsSound clock qe.time qe.topic s f r later h)
          ]
        ]
      ]
