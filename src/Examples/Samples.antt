-- ===== src/Examples/Samples.antt =====
-- A small world, store, tracker, pair and service for the examples.
use flux_mcf.Prelude.{
  ℕ, zero, suc, String, Bool, true, false, not, Option, none, some, [], ◌∷◌, update,
}
use flux_mcf.World.{World, ValueQueue, plain, value_received}
use flux_mcf.ValueQueue.{new_queue}
use flux_mcf.ValueStore.{ValueStore}
use flux_mcf.Remote.Tracker.{Tracker, RemoteState, state_up, state_unsure}
use flux_mcf.Remote.Pair.{Pair, Answer, reply, injected, rejected}
use flux_mcf.Remote.Service.{Service, SendRule}

-- queue 1 of limit 2 with two events, the second of them expired; queue 2 without a limit
abbrev pub limited : ValueQueue ℕ
limited = record {
  maxlen = 2;
  queue = (5, "a") ∷ (6, "b") ∷ [];
  expired = false;
  trace_generator = none;
  last_receive_topic = "b";
  last_receive_time = 3;
  events = 1 ∷ 2 ∷ [];
}

abbrev pub unlimited : ValueQueue ℕ
unlimited = record {
  maxlen = 0;
  queue = (7, "a") ∷ [];
  expired = false;
  trace_generator = some 4;
  last_receive_topic = "a";
  last_receive_time = 9;
  events = [];
}

abbrev pub world : World ℕ
world = record {
  events =
      update
        (update (λ e. record { class = plain; flag = false; expired = false }) 1
          (record { class = value_received 1 none; flag = false; expired = false }))
        2 (record { class = plain; flag = false; expired = true });
  queues = update (update (λ k. new_queue 0 none) 1 limited) 2 unlimited;
  traces = [];
  clock = λ n. n;
}

-- queue 2 is registered for all topics and for "a", queue 1 for "a"
abbrev pub store : ValueStore ℕ
store = record {
  store = ("a", record { value = some 3; receivers = 1 ∷ 2 ∷ [] }) ∷ [];
  all_topic_receivers = 2 ∷ [];
}

abbrev pub tracker : RemoteState → Tracker
tracker state = record {
  ping_interval_min = 100;
  ping_interval_max = 400;
  ping_interval = 400;
  pong_timeout = 1000;
  remote_state = state;
  ping_freshness = 17;
  last_ping_time = 1000;
  last_pong_time = 900;
  pings = 17 ∷ [];
}

abbrev pub unsure_tracker : Tracker
unsure_tracker = record (tracker state_unsure) { ping_interval = 100 }

abbrev pub alternating : Bool → ℕ → Answer
alternating b zero = reply (some (elim b [ true ↦ injected | false ↦ rejected ]))
alternating b (suc n) = alternating (not b) n

abbrev pub pair : Pair ℕ
pair = record {
  tracker = tracker state_up;
  pong_queue = [];
  old_state = state_up;
  sender_connected = true;
  answers = alternating true;
  sent = [];
}

abbrev pub rule : String → Option ℕ → Bool → Bool → SendRule
rule topic queue forced pending = record {
  topic = topic;
  queue_length = 1;
  forced_send = forced;
  send_pending = pending;
  queue = queue;
}

abbrev pub service : Service ℕ
service = record {
  send_rules = ("a", rule "a" (some 2) false false) ∷ ("b", rule "b" (some 1) true false) ∷ [];
  receive_rules = ("r", record { topic = "l"; pending_value = none }) ∷ [];
  inserted_topics = [];
  rejected_topics = [];
  initialized = true;
  pair = pair;
  shared = record { world = world; store = store };
  trigger_event = 0;
  generator = none;
}
