-- ===== src/Recorder/Monitor/Averages.antt =====
-- What the statuses of the recorder say: no average divides by zero or exceeds its maximum.
use native.Mathlib.Nat.{mul-le-mul_left}
use flux_mcf.Prelude.{
  ℕ, suc, ◌+◌, ◌-◌, ◌*◌, ◌≤◌, ◌<◌, ◌≡◌, All, All-append, arith, ltb, if◌then◌else◌, Bool-cases, inl,
  inr,
}
use flux_mcf.Recorder.Monitor.{Status, Monitor, serialize_begin, serialize_end, output_status}

-- the denominators are positive, and each total is at most the maximum times the number of writes
pub record IsStatus (s : Status) : Type 0 where
  pub some_writes : 0 < s.num_writes
  pub some_time : 0 < s.period
  pub latency : s.total_latency ≤ s.num_writes * s.max_latency
  pub queue_size : s.total_queue_size ≤ s.num_writes * s.max_queue_size

pub record IsSound (m : Monitor) : Type 0 where
  pub latency : m.total_latency ≤ m.num_writes * m.max_latency
  pub queue_size : m.total_queue_size ≤ m.num_writes * m.max_queue_size
  pub statuses : All IsStatus m.published

-- one more summand, and the new maximum
max_step :
    (total n max x : ℕ) → total ≤ n * max → total + x ≤ suc n * (if ltb max x then x else max)
max_step total n max x h = elim (Bool-cases (ltb max x)) [
  | inl grows ↦
      let less : max < x = ground arith in
      let bound : n * max ≤ n * x = mul-le-mul_left n (omega arith) in
      let more : suc n * x ≡ n * x + x = grind arith in rw grows (rw more (omega arith))
  | inr stays ↦
      let less : x ≤ max = ground arith in
      let more : suc n * max ≡ n * max + max = grind arith in rw stays (rw more (omega arith))
]

pub serialize_begin-IsSound :
    (now size time : ℕ) (m : Monitor) → IsSound m → IsSound (serialize_begin now size time m)
unfolding serialize_begin
serialize_begin-IsSound now size time m h = record {
  latency = max_step m.total_latency m.num_writes m.max_latency (now - time) h.latency;
  queue_size = max_step m.total_queue_size m.num_writes m.max_queue_size size h.queue_size;
  statuses = h.statuses;
}

pub serialize_end-IsSound :
    (now now_output : ℕ) (m : Monitor)
    → now ≤ now_output
    → 0 < m.num_writes
    → IsSound m
    → IsSound (serialize_end now now_output m)
unfolding serialize_end output_status
serialize_end-IsSound now now_output m later some_writes h =
    elim (Bool-cases (ltb (m.last_out_time + 1000000) now)) [
      | inl due ↦
          let early : m.last_out_time + 1000000 < now = ground arith in
          rw due (record {
            latency = omega arith;
            queue_size = omega arith;
            statuses = All-append IsStatus m.published _ h.statuses (
              record {
                some_writes = some_writes;
                some_time = omega arith;
                latency = h.latency;
                queue_size = h.queue_size;
              },
              tt,
            );
          })
      | inr waits ↦ rw waits h
    ]
