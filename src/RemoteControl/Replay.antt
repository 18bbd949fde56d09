-- ===== src/RemoteControl/Replay.antt =====
-- The replay parameters and the results that the remote control client of
-- mcf_py/mcf/remote_control.py takes from the content of a response.
use flux_mcf.Prelude.{
  ℕ, zero, suc, String, Bool, true, false, not, Option, none, some, nat_beq, string_eq, ◌==◌,
  if◌then◌else◌, Result, ok, raise, value_error, ◌>>=◌,
}
use flux_mcf.RemoteControl.Objects.{
  Obj, nil, boolean, integer, text, array, dict, Fields, end, field, item,
}

-- PlaybackModifier and ReplayParams.RunMode
pub data PlaybackModifier : Type 0 where
  pause resume step_once finish : PlaybackModifier

pub data RunMode : Type 0 where
  continuous single_step step_time : RunMode

unfoldable pub modifier_number : PlaybackModifier → ℕ
modifier_number pause = 0
modifier_number resume = 1
modifier_number step_once = 2
modifier_number finish = 3

unfoldable pub mode_number : RunMode → ℕ
mode_number continuous = 0
mode_number single_step = 1
mode_number step_time = 2

-- ReplayParams.RunMode(run_mode), which is no float; True and False are the numbers 1 and 0
unfoldable pub run_mode_of : {A : Type 0} → Obj A → Result RunMode
run_mode_of (integer zero) = ok continuous
run_mode_of (integer (suc zero)) = ok single_step
run_mode_of (integer (suc (suc zero))) = ok step_time
run_mode_of (boolean false) = ok continuous
run_mode_of (boolean true) = ok single_step
run_mode_of _ = raise value_error

pub record ReplayParams (A : Type 0) : Type 0 where
  pub run_mode : RunMode
  pub run_without_drops : Obj A
  pub speed_factor : Obj A
  pub pipeline_end_trigger_names : Obj A
  pub wait_input_event_name : Obj A
  pub wait_input_event_topic : Obj A
  pub step_time_microseconds : Obj A

module _ {A : Type 0} where
  -- a command with its arguments
  abbrev pub command : String → Fields A → Obj A
  command name args = dict (field "command" (text name) args)

  -- ReplayParams.__init__ from the content of a response
  unfoldable pub params_of : Obj A → Result (ReplayParams A)
  unfolding item run_mode_of
  params_of o = do
    mode ← item "run_mode" o
    drops ← item "run_without_drops" o
    speed ← item "speed_factor" o
    names ← item "pipeline_end_trigger_names" o
    name ← item "wait_input_event_name" o
    topic ← item "wait_input_event_topic" o
    step ← item "step_time_microseconds" o
    run_mode ← run_mode_of mode
    ok (record {
      run_mode = run_mode;
      run_without_drops = drops;
      speed_factor = speed;
      pipeline_end_trigger_names = names;
      wait_input_event_name = name;
      wait_input_event_topic = topic;
      step_time_microseconds = step;
    })

  -- the arguments of set_replay_params
  unfoldable pub params_fields : ReplayParams A → Fields A
  unfolding mode_number
  params_fields p = field "run_mode" (integer (mode_number p.run_mode)) (
      field "run_without_drops" p.run_without_drops (
        field "speed_factor" p.speed_factor (
          field "pipeline_end_trigger_names" p.pipeline_end_trigger_names (
            field "wait_input_event_name" p.wait_input_event_name (
              field "wait_input_event_topic" p.wait_input_event_topic
                (field "step_time_microseconds" p.step_time_microseconds end))))))

  -- `params[key]` of a response, or None; `False` stands for None where the source returns that
  unfoldable pub content_item : (Obj A → Result (Obj A)) → Option (Obj A) → Result (Option (Obj A))
  content_item read none = ok none
  content_item read (some params) = do v ← read params; ok (some v)

  -- bool(o), where that of an array is given
  unfoldable pub truth : (A → Bool) → Obj A → Bool
  truth array_truth nil = false
  truth array_truth (boolean b) = b
  truth array_truth (integer n) = not (nat_beq n 0)
  truth array_truth (text t) = not (t == "")
  truth array_truth (array a) = array_truth a
  truth array_truth (dict end) = false
  truth array_truth (dict (field k v rest)) = true

  unfoldable pub sim_time_of : (A → Bool) → Obj A → Result (Option (Obj A))
  unfolding item truth
  sim_time_of array_truth o = do
    initialised ← item "is_initialised" o
    if truth array_truth initialised then (do t ← item "sim_time" o; ok (some t)) else ok none
