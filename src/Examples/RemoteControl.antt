-- ===== src/Examples/RemoteControl.antt =====
-- The remote control client.
use flux_mcf.Prelude.{
  ℕ, String, ◌==◌, string_eq, ◌≡◌, refl, true, false, Option, none, some, List, [], ◌∷◌, ok,
  connection_timeout,
}
use flux_mcf.RemoteControl.Communicator.{
  Communicator, Incoming, running, own, returned, raised, send, submit, submit_to, after_run,
  raw_send, post, raw_receive, poll, new_communicator,
}
use flux_mcf.RemoteControl.Communicator.Connection.{IsSafe}
use flux_mcf.RemoteControl.Communicator.Sequences.{
  Call, connects, disconnects, sends, receives, perform, perform_all, perform-after-IsSafe,
}
use flux_mcf.RemoteControl.Communicator.Timeouts.{IsStuck, send-IsStuck}
use flux_mcf.RemoteControl.Objects.{
  Obj, boolean, integer, text, array, dict, Frame, Fields, end, field, item, find, more_of,
  has_more_in,
}
use flux_mcf.RemoteControl.Replay.{ReplayParams, single_step}
use flux_mcf.RemoteControl.Client.{packed, set_replay_params, get_replay_params}
use flux_mcf.RemoteControl.Client.Params.{set_command, IsAnswer, before, replay_params-Returned}
use flux_mcf.RemoteControl.Values.{ValueType}
use flux_mcf.RemoteControl.Values.RoundTrip.{IsResponse, Returns, set-Returns}

-- a target that never answers
abbrev silent : ℕ → Option (Incoming ℕ)
silent n = none

abbrev threaded : Communicator ℕ
threaded = record {
  context = true;
  socket = true;
  timeout = 3;
  own_thread = true;
  worker = some (own running);
  polls = silent;
  takes = λ n. true;
  rcvmore = false;
  sent = [];
}

times_out : (send 1 (5 ∷ []) threaded).1 ≡ raised connection_timeout
unfolding send submit submit_to after_run raw_send post raw_receive poll
times_out = refl

send-IsStuck_example : IsStuck (send 1 (5 ∷ []) threaded).0
send-IsStuck_example = send-IsStuck 1 (5 ∷ []) threaded refl refl refl times_out

abbrev calls : List (Call ℕ)
calls = connects 1 ∷ sends 1 (5 ∷ []) ∷ disconnects 2 ∷ disconnects 1 ∷ []

perform-after-IsSafe_example :
    IsSafe (perform (receives 1) (perform_all calls (new_communicator 3 false silent (λ n. true))))
perform-after-IsSafe_example = perform-after-IsSafe calls (receives 1) 3 silent (λ n. true)

-- values are a number with an id
abbrev numbers : ValueType ℕ ℕ (ℕ × ℕ)
numbers = record {
  is_instance = λ v. true;
  id = λ v. v.0;
  typename = λ v. "Number";
  content = λ v. v.1;
  extmem = λ v. none;
  deserialize = λ o t e. elim o [ array n ↦ ok (0, n) | _ ↦ ok (0, 0) ];
  inject_id = λ o v. elim o [ integer n ↦ (n, v.1) | _ ↦ v ];
}

abbrev response : Fields ℕ
response =
    field "type" (text "response")
      (field "content" (dict (field "has_more" (boolean false) end)) end)

response-IsResponse : IsResponse numbers 1 "t" (λ t. false) (λ a. false) response
unfolding item find more_of has_more_in
response-IsResponse = record { kind = refl; more = boolean false; tells = refl }

set-Returns_example : Returns numbers 1 "t" (λ t. false) (λ a. false) 9 response [] (4, 7) none
set-Returns_example =
    set-Returns numbers 1 "t" (λ t. false) (λ a. false) 9 response [] (4, 7) none
      (record {
        has_type = refl;
        has_id = refl;
        bare = (0, 7);
        deserializes = refl;
        restores = refl;
      })
      response-IsResponse

abbrev params : ReplayParams ℕ
params = record {
  run_mode = single_step;
  run_without_drops = boolean true;
  speed_factor = array 2;
  pipeline_end_trigger_names = array 0;
  wait_input_event_name = text "camera";
  wait_input_event_topic = text "image";
  step_time_microseconds = integer 500;
}

abbrev answer : String → Obj ℕ → Fields ℕ
answer kind content = field "type" (text kind) (field "content" content end)

answer-IsAnswer :
    (kind : String) (content : Obj ℕ) → IsAnswer (kind == "response") content (answer kind content)
unfolding item find
answer-IsAnswer kind content = record {
  kind = text kind;
  has_kind = refl;
  accepts = refl;
  has_content = refl;
}

abbrev asked : Fields ℕ → Communicator (Frame ℕ ℕ)
asked fs = before 1 9 (packed (text "first") ∷ []) fs

replay_params-Returned_example :
    ((set_replay_params 1 params (asked (answer "response" (boolean true)))).1 ≡ returned true)
    × ((set_replay_params 1 params (asked (answer "response" (boolean true)))).0.sent
        ≡ packed (text "first") ∷ packed (set_command params) ∷ [])
    × ((get_replay_params 1 (asked (answer "response" (set_command params)))).1
        ≡ returned (some params))
    × ((set_replay_params 1 params (asked (answer "error" (text "busy")))).1 ≡ returned false)
    × ((get_replay_params 1 (asked (answer "error" (text "busy")))).1 ≡ returned none)
replay_params-Returned_example =
    replay_params-Returned 1 9 (packed (text "first") ∷ []) params (boolean true) "busy"
      (answer "response" (boolean true)) (answer "response" (set_command params))
      (answer "error" (text "busy")) (answer-IsAnswer "response" (boolean true))
      (answer-IsAnswer "response" (set_command params)) (answer-IsAnswer "error" (text "busy"))
