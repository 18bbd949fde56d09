-- ===== src/Recorder/Writer/Draining.antt =====
-- The inner loop of the write thread empties the queue.
use flux_mcf.Prelude.{
  ℕ, zero, suc, ◌+◌, ◌≤◌, ◌<◌, String, ◌≡◌, ◌∙◌, refl, sym, ap, subst, Bool, true, Option, none,
  some, List, [], ◌∷◌, All, length, nat_eq, Result, ok, arith,
}
use flux_mcf.Prelude.Dict.{lookup}
use flux_mcf.Recorder.Queue
use flux_mcf.Recorder.Queue.{Queue, QueueValue, QueueEntry, pop_front}
use flux_mcf.Recorder.Format.{Codec}
use flux_mcf.Recorder.Monitor.{
  serialize_begin, serialize_end, inc_bytes_written, report_write_error, report_dropped,
}
use flux_mcf.Recorder.Writer.{
  report_failed, Serialized, Recorder, serialize_entry, write_record, handle, drain,
}

-- every queued value has a topic in the map
abbrev pub IsKnown : {V : Type 0} → Queue V → List (QueueValue V) → Type 0
IsKnown q d = All (λ qv. (t : String) × (lookup qv.topic_id q.topic_id_map ≡ some t)) d

pop_known :
    {V : Type 0} (q : Queue V) (qv : QueueValue V) (rest : List (QueueValue V)) (t : String)
    → q.deque ≡ qv ∷ rest
    → lookup qv.topic_id q.topic_id_map ≡ some t
    → Queue.pop q
      ≡ ok (
        record q { deque = rest },
        some (record { time = qv.time; topic = t; value = qv.value }),
        length rest,
      )
unfolding Queue.pop pop_front
pop_known q qv rest t front known =
    ap (λ (d : List (QueueValue _)). pop_front d q) front ∙ ground arith

pop_nothing : {V : Type 0} (q : Queue V) → q.deque ≡ [] → Queue.pop q ≡ ok (q, none, 0)
unfolding Queue.pop pop_front
pop_nothing q h = ap (λ (d : List (QueueValue _)). pop_front d q) h

module _ {V A B : Type 0} (codec : Codec A B) (serialize : V → Option (Serialized A B)) where
  -- no status comes due before a second has passed since the last one
  abbrev pub IsEarly : (ℕ → ℕ) → Recorder V B → Type 0
  IsEarly clock r = clock 2 ≤ r.status_monitor.last_out_time + 1000000

  -- The loop ended by itself, without an error, with an empty queue and without a status, which
  -- would have come back to the queue.
  pub record Drained (r : Recorder V B) (outcome : Result (Recorder V B × Bool)) : Type 0 where
    pub final : Recorder V B
    pub returns : outcome ≡ ok (final, true)
    pub no_entries : final.queue.deque ≡ []
    pub no_status : final.status_monitor.published ≡ r.status_monitor.published

  queue-handle :
      (clock : ℕ → ℕ) (n : ℕ) (qe : QueueEntry V) (r : Recorder V B)
      → (handle codec serialize clock n qe r).queue ≡ r.queue
  unfolding handle serialize_entry write_record
  queue-handle clock n qe r = ground arith

  -- an entry that is handled early leaves the queue alone and publishes nothing
  record Quiet (r r' : Recorder V B) : Type 0 where
    same_queue : r'.queue ≡ r.queue
    same_time : r'.status_monitor.last_out_time ≡ r.status_monitor.last_out_time
    same_statuses : r'.status_monitor.published ≡ r.status_monitor.published

  write_record-Quiet :
      (clock : ℕ → ℕ) (time : ℕ) (topic : String) (s : Serialized A B) (f : List B)
      (r : Recorder V B)
      → IsEarly clock r
      → Quiet r (write_record codec serialize clock time topic s f r)
  unfolding write_record serialize_begin serialize_end inc_bytes_written report_failed
      report_write_error
  write_record-Quiet clock time topic s f r early = record {
    same_queue = refl;
    same_time = ground arith;
    same_statuses = ground arith;
  }

  handle-Quiet :
      (clock : ℕ → ℕ) (n : ℕ) (qe : QueueEntry V) (r : Recorder V B)
      → IsEarly clock r
      → Quiet r (handle codec serialize clock n qe r)
  unfolding handle serialize_entry write_record serialize_begin serialize_end inc_bytes_written
      report_failed report_write_error report_dropped
  handle-Quiet clock n qe r early = record {
    same_queue = queue-handle clock n qe r;
    same_time = ground (arith);
    same_statuses = ground (arith);
  }

  from-Drained :
      (d : List (QueueValue V)) (fuel : ℕ) (clocks : ℕ → ℕ → ℕ) (r : Recorder V B)
      → r.queue.deque ≡ d
      → length d < fuel
      → IsKnown r.queue d
      → ((k : ℕ) → IsEarly (clocks k) r)
      → Drained r (drain codec serialize fuel clocks r)
  unfolding drain
  from-Drained d zero clocks r front enough known early = absurd (omega arith)
  from-Drained [] (suc fuel) clocks r front enough known early = record {
    final = r;
    returns = simp (pop_nothing r.queue front);
    no_entries = front;
    no_status = refl;
  }
  from-Drained (qv ∷ rest) (suc fuel) clocks r front enough ((t, here), later) early =
      let q : Queue V = record r.queue { deque = rest } in
      let qe : QueueEntry V = record { time = qv.time; topic = t; value = qv.value } in
      let popped : Recorder V B = record r { queue = q } in
      let r' = handle codec serialize (clocks 0) (length rest) qe popped in
      let quiet = handle-Quiet (clocks 0) (length rest) qe popped (early 0) in
      let same = quiet.same_queue in
      let ih =
        from-Drained rest fuel (λ n. clocks (suc n)) r' (ap (λ (x : Queue V). x.deque) same)
          (omega arith) (subst (λ (x : Queue V). IsKnown x rest) (sym same) later)
          (λ k. rw quiet.same_time (early (suc k))) in
      record {
        final = ih.final;
        returns = simp (pop_known r.queue qv rest t front here, ih.returns);
        no_entries = ih.no_entries;
        no_status = ih.no_status ∙ quiet.same_statuses;
      }

  -- If no value arrives meanwhile, every queued value has a topic and no reading of the clock at the
  -- end of an entry is more than a second after the last status, the loop ends by itself within one
  -- pass more than there are entries, without an error and with an empty queue, whatever the size
  -- limit drops, and it publishes no status.
  pub drain-Drained :
      (fuel : ℕ) (clocks : ℕ → ℕ → ℕ) (r : Recorder V B)
      → length r.queue.deque < fuel
      → IsKnown r.queue r.queue.deque
      → ((k : ℕ) → IsEarly (clocks k) r)
      → Drained r (drain codec serialize fuel clocks r)
  drain-Drained fuel clocks r enough known early =
      from-Drained r.queue.deque fuel clocks r refl enough known early
