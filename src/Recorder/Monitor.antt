-- ===== src/Recorder/Monitor.antt =====
-- `StatusMonitor` of mcf_py/mcf_core/value_recorder.py. Times are microseconds since the epoch, so
-- that latencies are exact; a clock that runs backwards gives the latency 0. A ratio of the source is
-- the pair of its numerator and denominator, under one field each. CPU loads are left out.
-- The flags and maxima are those of the class ValueRecorderStatus, which all monitors of a process
-- share; here it has one monitor. A status is added to `published`; that the value store then calls
-- the recorder's own queue, if it is registered there, is a reception of that queue.
pub mod Averages
use flux_mcf.Prelude.{
  ℕ, ◌+◌, ◌-◌, ◌*◌, ◌≤◌, String, Bool, true, false, List, [], ◌∷◌, ◌++◌, any_of, ltb, suc, ◌==◌,
  string_eq, if◌then◌else◌,
}

-- RecorderStatus, as it is written to the value store
pub record Status : Type 0 where
  pub bytes_written : ℕ
  pub period : ℕ
  pub total_latency : ℕ
  pub max_latency : ℕ
  pub total_queue_size : ℕ
  pub max_queue_size : ℕ
  pub num_writes : ℕ
  pub drop_flag : Bool
  pub error_flag : Bool
  pub error_descs : List String

-- the monitor with the recorder status that it keeps; `published` holds the statuses that went to
-- the value store, newest last
pub record Monitor : Type 0 where
  pub bytes_written : ℕ
  pub total_latency : ℕ
  pub total_queue_size : ℕ
  pub num_writes : ℕ
  pub last_out_time : ℕ
  pub drop_count : ℕ
  pub max_latency : ℕ
  pub max_queue_size : ℕ
  pub drop_flag : Bool
  pub error_flag : Bool
  pub error_descs : List String
  pub published : List Status

abbrev pub max_drop_count : ℕ
max_drop_count = 4294967296

-- _init_status
unfoldable pub init_status : Monitor → Monitor
init_status m = record m {
  drop_flag = false;
  error_flag = false;
  max_latency = 0;
  max_queue_size = 0;
  error_descs = [];
  bytes_written = 0;
  total_latency = 0;
  total_queue_size = 0;
  num_writes = 0;
}

unfoldable pub start : ℕ → Monitor → Monitor
unfolding init_status
start now m = init_status (record m { last_out_time = now })

unfoldable pub serialize_begin : ℕ → ℕ → ℕ → Monitor → Monitor
serialize_begin now queue_size record_time m =
    let latency = now - record_time in
    record m {
      total_latency = m.total_latency + latency;
      num_writes = suc m.num_writes;
      total_queue_size = m.total_queue_size + queue_size;
      max_latency = if ltb m.max_latency latency then latency else m.max_latency;
      max_queue_size = if ltb m.max_queue_size queue_size then queue_size else m.max_queue_size;
    }

-- _output_status
unfoldable pub output_status : ℕ → Monitor → Monitor
unfolding init_status
output_status now m =
    let status : Status = record {
      bytes_written = m.bytes_written;
      period = now - m.last_out_time;
      total_latency = m.total_latency;
      max_latency = m.max_latency;
      total_queue_size = m.total_queue_size;
      max_queue_size = m.max_queue_size;
      num_writes = m.num_writes;
      drop_flag = m.drop_flag;
      error_flag = m.error_flag;
      error_descs = m.error_descs;
    } in
    init_status (record m {
      published = m.published ++ status ∷ [];
      drop_count = if m.drop_flag then 0 else m.drop_count;
      last_out_time = now;
    })

-- `elapsed_secs > 1.0`, and the reading of the clock in `_output_status`
unfoldable pub serialize_end : ℕ → ℕ → Monitor → Monitor
unfolding output_status
serialize_end now now_output m =
    if ltb (m.last_out_time + 1000000) now then output_status now_output m else m

unfoldable pub report_write_error : String → Monitor → Monitor
report_write_error err_msg m = record m {
  error_flag = true;
  error_descs =
      if any_of (λ d. d == err_msg) m.error_descs
      then m.error_descs
      else m.error_descs ++ err_msg ∷ [];
}

unfoldable pub report_dropped : Monitor → Monitor
report_dropped m = record m {
  drop_flag = true;
  drop_count = if ltb m.drop_count max_drop_count then suc m.drop_count else m.drop_count;
}

unfoldable pub inc_bytes_written : ℕ → Monitor → Monitor
inc_bytes_written num m = record m { bytes_written = m.bytes_written + num }
