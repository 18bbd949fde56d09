-- ===== src/RemoteControl/Values.antt =====
-- How the remote control client of mcf_py/mcf/remote_control.py writes and reads values, and the
-- accessors of mcf_py/mcf/value_accessor.py. The value types with their serialization are given.
pub mod Online
pub mod RoundTrip
use flux_mcf.Prelude.{
  ℕ, zero, suc, String, Bool, true, false, not, Option, none, some, List, [], ◌∷◌, ◌++◌, nat_beq,
  if◌then◌else◌, Result, ok, raise, Exception, type_error, permission_error, ◌==◌,
}
use flux_mcf.RemoteControl.Communicator
use flux_mcf.RemoteControl.Communicator.{Communicator, M, return, throw, ◌>>=◌, ◌>>◌}
use flux_mcf.RemoteControl.Objects.{
  Obj, boolean, integer, text, array, dict, Fields, end, field, Frame, objects, raw, ReadValue,
  check_response, decode_value,
}
use flux_mcf.RemoteControl.Replay.{command, truth}
use flux_mcf.RemoteControl.Client.{lift, packed, request}

-- what is given to a method in one call
pub data Argument (A B : Type 0) : Type 0 where
  command_argument : List (Frame A B) → Argument A B
  topic_argument : String → Argument A B
  flag_argument : Bool → Argument A B

-- the arguments of write_value
pub record Written (A B : Type 0) : Type 0 where
  pub topic : String
  pub clazz : String
  pub value : A
  pub extmem : Option B
  pub timestamp : Option ℕ
  pub value_id : ℕ
  pub component : String
  pub port : String

abbrev timestamp_field : {A : Type 0} → Option ℕ → Fields A
timestamp_field none = end
timestamp_field (some t) = field "timestamp" (integer t) end

module _ {A B : Type 0} where
  unfoldable pub write_header : Written A B → Obj A
  write_header w = command "write_value" (
      field "topic" (text w.topic) (
        field "component" (text w.component)
          (field "port" (text w.port) (timestamp_field w.timestamp))))

  -- the id, if there is one, the type name and the value
  unfoldable pub write_body : Written A B → List (Obj A)
  write_body w =
      if not (nat_beq w.value_id 0)
      then integer w.value_id ∷ text w.clazz ∷ array w.value ∷ []
      else text w.clazz ∷ array w.value ∷ []

  abbrev pub extmem_frame : Option B → List (Frame A B)
  extmem_frame none = []
  extmem_frame (some e) = raw e ∷ []

  -- the parts of the message
  unfoldable pub write_messages : Written A B → List (Frame A B)
  unfolding write_header write_body
  write_messages w = objects (write_header w ∷ []) ∷ objects (write_body w) ∷ extmem_frame w.extmem

  module _ (caller : ℕ) where
    unfoldable pub write_value : Written A B → M (Frame A B) Bool
    unfolding write_messages request check_response
    write_value w = do r ← request caller (write_messages w); lift (check_response r)

    -- A call of the communicator's read_value, which takes one argument.
    unfoldable pub call_read_value :
        List (Argument A B) → M (Frame A B) (Option (Frame A B) × Option (Frame A B) × Frame A B)
    call_read_value (command_argument cmd ∷ []) = Communicator.read_value caller cmd
    call_read_value _ = throw type_error

    module _ (text_has_more : String → Bool) (array_has_more : A → Bool) where
      unfoldable pub read_value : String → Bool → M (Frame A B) (Option (ReadValue A B))
      unfolding call_read_value decode_value
      read_value topic with_id = do
        (header, part, response) ←
            call_read_value (
              command_argument (packed (command "read_value" (field "topic" (text topic) end)))
              ∷ [])
        (value, more) ←
            lift (decode_value text_has_more array_has_more header part with_id response)
        return value

      -- the loop of read_all_values, with the values so far
      unfoldable pub read_all :
          (A → Bool)
          → String
          → Bool
          → ℕ
          → List (Option (ReadValue A B))
          → M (Frame A B) (List (Option (ReadValue A B)))
      unfolding call_read_value decode_value truth
      read_all array_truth topic with_id zero values = return values
      read_all array_truth topic with_id (suc n) values = do
        (header, part, response) ←
            call_read_value (topic_argument topic ∷ flag_argument with_id ∷ [])
        (value, has_more) ←
            lift (decode_value text_has_more array_has_more header part with_id response)
        elim (truth array_truth has_more) [
          | true ↦ read_all array_truth topic with_id n (values ++ value ∷ [])
          | false ↦ return (values ++ value ∷ [])
        ]

      -- read_all_values
      unfoldable pub read_all_values :
          (A → Bool) → String → ℕ → Bool → M (Frame A B) (List (Option (ReadValue A B)))
      unfolding read_all
      read_all_values array_truth topic max_num with_id =
          read_all array_truth topic with_id max_num []

-- the classes of accessors
pub data Direction : Type 0 where
  both receiver sender : Direction

-- a value type: the class of an accessor, and what its values have of `Value`
pub record ValueType (A B V : Type 0) : Type 0 where
  pub is_instance : V → Bool
  pub id : V → ℕ
  pub typename : V → String
  pub content : V → A
  pub extmem : V → Option B
  pub deserialize : Obj A → Obj A → Option (Frame A B) → Result V
  pub inject_id : Obj A → V → V

module _ {A B V : Type 0} (type : ValueType A B V) (caller : ℕ) (topic : String) where
  -- the call of write_value in RCValueAccessor.set
  abbrev pub written : V → Option ℕ → Written A B
  written v timestamp = record {
    topic = topic;
    clazz = type.typename v;
    value = type.content v;
    extmem = type.extmem v;
    timestamp = timestamp;
    value_id = type.id v;
    component = "";
    port = "";
  }

  -- _check_type
  unfoldable pub check_type : V → M (Frame A B) (Unit {0})
  check_type v = if type.is_instance v then return tt else throw type_error

  -- RCValueAccessor.set, and what it is for a receiver
  unfoldable pub set : Direction → V → Option ℕ → M (Frame A B) Bool
  unfolding check_type write_value
  set receiver v timestamp = throw permission_error
  set both v timestamp = check_type v >> write_value caller (written v timestamp)
  set sender v timestamp = check_type v >> write_value caller (written v timestamp)

  -- `get` asks for the id, so that there is one.
  unfoldable pub value_of : Option (ReadValue A B) → Result (Option V)
  value_of none = ok none
  value_of (some r) = with_id r.id (type.deserialize r.content r.typename r.extmem)
    where
      with_id : Option (Obj A) → Result V → Result (Option V)
      with_id i (raise e) = raise e
      with_id none (ok v) = ok (some v)
      with_id (some i) (ok v) = ok (some (type.inject_id i v))

  module _ (text_has_more : String → Bool) (array_has_more : A → Bool) where
    abbrev get_value : M (Frame A B) (Option V)
    get_value = do r ← read_value caller text_has_more array_has_more topic true; lift (value_of r)

    -- RCValueAccessor.get, and what it is for a sender
    unfoldable pub get : Direction → M (Frame A B) (Option V)
    unfolding read_value value_of
    get sender = throw permission_error
    get both = get_value
    get receiver = get_value
