-- ===== src/Remote/Tracker.antt =====
-- `RemoteStatusTracker` of mcf_py/mcf_remote/remote_service.py. Times are milliseconds since the
-- epoch, and `now` is the reading of the clock at the start of the operation. The condition's lock
-- is held for the whole of each operation. A ping that is sent is a value in `pings`, newest last.
pub mod Transitions
pub mod Intervals
use flux_mcf.Prelude.{ℕ, suc, ◌+◌, ◌*◌, Bool, List, [], ◌∷◌, ◌++◌, ltb, nat_beq, if◌then◌else◌}

pub data RemoteState : Type 0 where
  state_down state_unsure state_up : RemoteState

pub record Tracker : Type 0 where
  pub ping_interval_min : ℕ
  pub ping_interval_max : ℕ
  pub ping_interval : ℕ
  pub pong_timeout : ℕ
  pub remote_state : RemoteState
  pub ping_freshness : ℕ
  pub last_ping_time : ℕ
  pub last_pong_time : ℕ
  pub pings : List ℕ

-- __init__; `freshness` is the random number
unfoldable pub new_tracker : ℕ → ℕ → ℕ → ℕ → Tracker
new_tracker ping_interval_min ping_interval_max pong_timeout freshness = record {
  ping_interval_min = ping_interval_min;
  ping_interval_max = ping_interval_max;
  ping_interval = ping_interval_min;
  pong_timeout = pong_timeout;
  remote_state = state_unsure;
  ping_freshness = freshness;
  last_ping_time = 0;
  last_pong_time = 0;
  pings = [];
}

-- _set_remote_state
unfoldable pub set_remote_state : RemoteState → Tracker → Tracker
set_remote_state state_down s = record s { remote_state = state_down }
set_remote_state state_unsure s = record s {
  remote_state = state_unsure;
  ping_interval = s.ping_interval_min;
  last_ping_time = 0;
}
set_remote_state state_up s = record s {
  remote_state = state_up;
  ping_interval = s.ping_interval_max;
}

-- _send_ping
unfoldable pub send_ping : ℕ → Tracker → Tracker
send_ping now s = record s {
  last_ping_time = now;
  ping_freshness = suc s.ping_freshness;
  pings = s.pings ++ suc s.ping_freshness ∷ [];
}

-- the tests `_remote_state == ...`
unfoldable pub is_unsure : RemoteState → Bool
is_unsure state_unsure = Bool.true
is_unsure _ = Bool.false

unfoldable pub is_up : RemoteState → Bool
is_up state_up = Bool.true
is_up _ = Bool.false

unfoldable pub is_down : RemoteState → Bool
is_down state_down = Bool.true
is_down _ = Bool.false

unfoldable pub pong_received : ℕ → ℕ → Tracker → Tracker
unfolding set_remote_state is_unsure is_up
pong_received now freshness s =
    if nat_beq freshness s.ping_freshness
    then (let s' = if is_unsure s.remote_state then set_remote_state state_up s else s in
        if is_up s'.remote_state then record s' { last_pong_time = now } else s')
    else s

-- the first `if` of run_cyclic
unfoldable pub cycle_unsure : ℕ → Tracker → Tracker
unfolding set_remote_state is_unsure send_ping
cycle_unsure now s =
    if is_unsure s.remote_state
    then (if ltb (s.last_ping_time + s.ping_interval) now
        then (let s' = send_ping now s in
            let s'' = record s' { ping_interval = 2 * s'.ping_interval } in
            if ltb s''.ping_interval_max s''.ping_interval
            then set_remote_state state_down s''
            else s'')
        else s)
    else s

-- the second `if` of run_cyclic
unfoldable pub cycle_up : ℕ → Tracker → Tracker
unfolding set_remote_state is_up send_ping
cycle_up now s =
    if is_up s.remote_state
    then (if ltb (s.last_ping_time + s.ping_interval) now
        then (let s' = send_ping now s in
            if ltb (s'.last_pong_time + s'.pong_timeout) now
            then set_remote_state state_down s'
            else s')
        else s)
    else s

unfoldable pub run_cyclic : ℕ → Tracker → Tracker
unfolding cycle_unsure cycle_up
run_cyclic now s = cycle_up now (cycle_unsure now s)

unfoldable pub message_received_in_down : Tracker → Tracker
unfolding set_remote_state
message_received_in_down s = set_remote_state state_unsure s

unfoldable pub sending_timeout : Tracker → Tracker
unfolding set_remote_state
sending_timeout s = set_remote_state state_unsure s

-- the calls of other threads
pub data Event : Type 0 where
  pong : (now freshness : ℕ) → Event
  cycle : (now : ℕ) → Event
  message_in_down : Event
  timeout : Event

unfoldable pub step : Event → Tracker → Tracker
unfolding pong_received run_cyclic message_received_in_down sending_timeout
step (pong now f) s = pong_received now f s
step (cycle now) s = run_cyclic now s
step message_in_down s = message_received_in_down s
step timeout s = sending_timeout s

unfoldable pub run : List Event → Tracker → Tracker
unfolding step
run [] s = s
run (e ∷ es) s = run es (step e s)
