-- ===== src/Remote/Pair.antt =====
-- `RemotePair` of mcf_py/mcf_remote/remote_service.py, over `ZmqMsgPackSender` of
-- mcf_py/mcf_remote/zmq_msgpack_comm.py. What the socket answers to each request is given from
-- outside, as the list of the answers to come. A result string of the source is a constructor of
-- `SendResult`. A message that goes out is a value in `sent`, newest last.
pub mod Status
use flux_mcf.Prelude.{
  ℕ, zero, suc, String, Bool, true, false, not, Option, none, some, List, [], ◌∷◌, ◌++◌, drop,
  length, if◌then◌else◌, Result, ok, raise, Exception, assertion_error, attribute_error, ◌>>=◌,
}
use flux_mcf.Remote.Tracker.{
  RemoteState, state_down, state_unsure, state_up, Tracker, is_up, is_down, pong_received,
  run_cyclic, message_received_in_down, sending_timeout,
}

pub data SendResult : Type 0 where
  injected received rejected timed_out : SendResult
  other : String → SendResult

-- what comes back from the socket for one request: `none` is a packed None
pub data Answer : Type 0 where
  reply : Option SendResult → Answer
  no_reply zmq_error : Answer

-- the messages of ZmqMsgPackSender
pub data Message (V : Type 0) : Type 0 where
  value : (topic : String) → V → Message V
  ping pong : (freshness : ℕ) → Message V
  send_all : Message V
  value_injected value_rejected : (topic : String) → Message V

pub record Pair (V : Type 0) : Type 0 where
  pub tracker : Tracker
  pub pong_queue : List ℕ
  pub old_state : RemoteState
  pub sender_connected : Bool
  pub answers : ℕ → Answer
  pub sent : List (Message V)

-- ZmqMsgPackSender._check_for_response
unfoldable pub check_for_response : Answer → SendResult
check_for_response (reply (some r)) = r
check_for_response (reply none) = timed_out
check_for_response no_reply = timed_out
check_for_response zmq_error = rejected

module _ {V : Type 0} where
  -- RemotePair.__init__, with the tracker that it makes
  unfoldable pub new_pair : Tracker → (ℕ → Answer) → Pair V
  new_pair tracker answers = record {
    tracker = tracker;
    pong_queue = [];
    old_state = state_unsure;
    sender_connected = false;
    answers = answers;
    sent = [];
  }

  -- `_send`; without a socket the error is the one given
  unfoldable pub post : Exception → Message V → Pair V → Result (Pair V × SendResult)
  post e m p =
      if p.sender_connected
      then ok (
        record p { answers = λ n. p.answers (suc n); sent = p.sent ++ m ∷ [] },
        check_for_response (p.answers 0),
      )
      else raise e

  -- the control messages, whose result is only logged, and which assert that there is a socket
  unfoldable pub post_control : Message V → Pair V → Result (Pair V)
  unfolding post
  post_control m p = do (p', r) ← post assertion_error m p; ok p'

  unfoldable pub after_result : SendResult → Pair V → Pair V
  after_result timed_out p = record p { tracker = sending_timeout p.tracker }
  after_result _ p = p

  -- RemotePair.send_value of a value that the sender takes (`is_value`) or rejects unsent; to use a
  -- socket that is None is an AttributeError
  unfoldable pub send_value : (V → Bool) → String → V → Pair V → Result (Pair V × SendResult)
  unfolding post after_result
  send_value is_value topic v p =
      if is_value v
      then (do (p', r) ← post attribute_error (value topic v) p; ok (after_result r p', r))
      else ok (p, rejected)

  -- The sender's methods for these two return None, so the test for "TIMEOUT" never holds.
  unfoldable pub send_blocked_value_injected : String → Pair V → Result (Pair V)
  send_blocked_value_injected topic p = post_control (value_injected topic) p

  unfoldable pub send_blocked_value_rejected : String → Pair V → Result (Pair V)
  send_blocked_value_rejected topic p = post_control (value_rejected topic) p

  unfoldable pub send_request_all : Pair V → Result (Pair V)
  send_request_all p = post_control send_all p

  unfoldable pub connected : Pair V → Bool
  connected p = is_up p.tracker.remote_state

  -- ping_received, without the call of trigger_send_cycle
  unfoldable pub ping_received : ℕ → Pair V → Pair V
  ping_received f p = record p { pong_queue = p.pong_queue ++ f ∷ [] }

  unfoldable pub pong_arrived : ℕ → ℕ → Pair V → Pair V
  pong_arrived now f p = record p { tracker = pong_received now f p.tracker }

  unfoldable pub connect_sender : Pair V → Pair V
  connect_sender p = record p { sender_connected = true }

  unfoldable pub disconnect_sender : Pair V → Pair V
  disconnect_sender p = record p { sender_connected = false }

  -- the end of RemotePair.receive, after the receiver has handled a message or timed out
  unfoldable pub after_receive : Bool → Pair V → Pair V
  after_receive success p =
      if success
      then (if is_down p.tracker.remote_state
          then record p { tracker = message_received_in_down p.tracker }
          else p)
      else p

  unfoldable pub post_all : List (Message V) → Pair V → Result (Pair V)
  post_all [] p = ok p
  post_all (m ∷ ms) p = do p' ← post_control m p; post_all ms p'

  unfoldable pub pongs : List ℕ → List (Message V)
  pongs [] = []
  pongs (f ∷ fs) = pong f ∷ pongs fs

  unfoldable pub pings : List ℕ → List (Message V)
  pings [] = []
  pings (f ∷ fs) = ping f ∷ pings fs

  -- _send_pongs
  unfoldable pub send_pongs : Pair V → Result (Pair V)
  unfolding post_all pongs
  send_pongs p = post_all (pongs p.pong_queue) (record p { pong_queue = [] })

  -- cycle: the tracker's pings of this cycle, and then the pongs
  unfoldable pub cycle : ℕ → Pair V → Result (Pair V)
  unfolding pings send_pongs
  cycle now p =
      let t = run_cyclic now p.tracker in
      let new_pings = drop (length p.tracker.pings) t.pings in
      do p' ← post_all (pings new_pings) (record p { tracker = t }); send_pongs p'
