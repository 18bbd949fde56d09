-- ===== src/RemoteControl/Client.antt =====
-- `RemoteControl` of mcf_py/mcf/remote_control.py over a communicator. What is printed is left out. A
-- value is given as the array that its serialization leads to.
pub mod Params
use flux_mcf.Prelude.{
  ℕ, String, Bool, false, Option, none, some, List, [], ◌∷◌, Result, ok, raise, string_eq,
}
use flux_mcf.RemoteControl.Communicator
use flux_mcf.RemoteControl.Communicator.{
  Communicator, Outcome, returned, raised, M, then_do, return, throw, ◌>>=◌, ◌>>◌,
}
use flux_mcf.RemoteControl.Objects.{
  Obj, boolean, integer, text, Fields, end, field, Frame, objects, item, content_of, check_response,
  unpackb,
}
use flux_mcf.RemoteControl.Replay.{
  PlaybackModifier, modifier_number, ReplayParams, params_of, params_fields, command, content_item,
  truth, sim_time_of,
}

abbrev pub lift : {F X : Type 0} → Result X → M F X
lift (ok x) = return x
lift (raise e) = throw e

-- a command as it is sent
abbrev pub packed : {A B : Type 0} → Obj A → List (Frame A B)
packed o = objects (o ∷ []) ∷ []

-- component and port, and further arguments
abbrev pub port_fields : {A : Type 0} → String → String → Fields A → Fields A
port_fields component port rest = field "component" (text component) (field "port" (text port) rest)

module _ {A B : Type 0} (caller : ℕ) where
  -- _send of a command
  unfoldable pub request : List (Frame A B) → M (Frame A B) (Obj A)
  unfolding unpackb
  request frames = do packed ← Communicator.send caller frames; lift (unpackb packed)

  -- a command that only succeeds or fails
  unfoldable pub order : Obj A → M (Frame A B) Bool
  unfolding request check_response
  order cmd = do r ← request (packed cmd); lift (check_response r)

  -- a command that is answered with some content; `none` is False
  unfoldable pub ask : Obj A → M (Frame A B) (Option (Obj A))
  unfolding request content_of
  ask cmd = do r ← request (packed cmd); lift (content_of r)

  unfoldable pub get_info : M (Frame A B) (Option (Obj A))
  unfolding ask
  get_info = ask (command "get_info" end)

  -- connect, whose result is the truth of the answer to a first command
  unfoldable pub connect : (A → Bool) → M (Frame A B) Bool
  unfolding get_info truth
  connect array_truth =
      Communicator.connect caller
      >> (do info ← get_info; return (elim info [ none ↦ false | some o ↦ truth array_truth o ]))

  unfoldable pub set_queue : String → ℕ → Bool → M (Frame A B) Bool
  unfolding order
  set_queue topic size blocking = order (
      command "set_queue" (
        field "topic" (text topic)
          (field "size" (integer size) (field "blocking" (boolean blocking) end))))

  unfoldable pub get_event_queue_state : M (Frame A B) (Option (Obj A))
  unfolding ask
  get_event_queue_state = ask (command "event_queue_info" end)

  unfoldable pub enable_event_queue : Bool → M (Frame A B) Bool
  unfolding order
  enable_event_queue enabled =
      order (command "enable_event_queue" (field "enabled" (boolean enabled) end))

  unfoldable pub disconnect_port : String → String → M (Frame A B) Bool
  unfolding order
  disconnect_port component port =
      order (command "disconnect_port" (port_fields component port end))

  unfoldable pub connect_port : String → String → M (Frame A B) Bool
  unfolding order
  connect_port component port = order (command "connect_port" (port_fields component port end))

  -- `params['value']` of the content
  unfoldable pub ask_value : Obj A → M (Frame A B) (Option (Obj A))
  unfolding ask content_item item
  ask_value cmd = do content ← ask cmd; lift (content_item (item "value") content)

  unfoldable pub get_port_blocking : String → String → M (Frame A B) (Option (Obj A))
  unfolding ask_value
  get_port_blocking component port =
      ask_value (command "get_port_blocking" (port_fields component port end))

  unfoldable pub set_port_blocking : String → String → Bool → M (Frame A B) Bool
  unfolding order
  set_port_blocking component port blocking = order (
      command "set_port_blocking"
        (port_fields component port (field "value" (boolean blocking) end)))

  unfoldable pub get_port_max_queue_length : String → String → M (Frame A B) (Option (Obj A))
  unfolding ask_value
  get_port_max_queue_length component port =
      ask_value (command "get_port_max_queue_length" (port_fields component port end))

  unfoldable pub set_port_max_queue_length : String → String → ℕ → M (Frame A B) Bool
  unfolding order
  set_port_max_queue_length component port size = order (
      command "set_port_max_queue_length"
        (port_fields component port (field "value" (integer size) end)))

  unfoldable pub set_playback_modifier : PlaybackModifier → M (Frame A B) Bool
  unfolding order modifier_number
  set_playback_modifier m = order (
      command "set_playback_modifier" (field "playback_modifier" (integer (modifier_number m)) end))

  unfoldable pub set_replay_params : ReplayParams A → M (Frame A B) Bool
  unfolding order params_fields
  set_replay_params p = order (command "set_replay_params" (params_fields p))

  -- the result of get_replay_params; `none` is False
  unfoldable pub get_replay_params : M (Frame A B) (Option (ReplayParams A))
  unfolding ask params_of
  get_replay_params = do
    content ← ask (command "get_replay_params" end)
    elim content [ none ↦ return none | some o ↦ (do p ← lift (params_of o); return (some p)) ]

  -- the result of get_sim_time; `none` is False
  unfoldable pub get_sim_time : (A → Bool) → M (Frame A B) (Option (Obj A))
  unfolding ask sim_time_of
  get_sim_time array_truth = do
    content ← ask (command "get_sim_time" end)
    elim content [ none ↦ return none | some o ↦ lift (sim_time_of array_truth o) ]
