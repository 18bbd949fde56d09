-- ===== src/Remote/Receiver.antt =====
-- The frames of ZmqMsgPackSender and the dispatch of ZmqMsgPackReceiver, of
-- mcf_py/mcf_remote/zmq_msgpack_comm.py. A frame is what msgpack packed into it, or an extmem part;
-- `A` are the contents of values, `B` the extmem parts. Every error of msgpack is `value_error`, and so
-- is a frame that is no extmem part where one is taken, which the sender never sends.
pub mod Protocol
use flux_mcf.Prelude.{
  ℕ, zero, suc, String, Bool, true, false, Option, none, some, List, [], ◌∷◌, ◌++◌, ◌==◌, string_eq,
  if◌then◌else◌, Result, ok, raise, attribute_error, value_error, ◌>>=◌,
}
use flux_mcf.Prelude.Dict.{Dict, lookup, insert}

-- what one call of msgpack.packb packs
pub data Packable : Type 0 where
  text : String → Packable
  number : ℕ → Packable

pub data Frame (A B : Type 0) : Type 0 where
  packed : Packable → Frame A B
  value_data : (id : ℕ) (typename : String) → A → Frame A B
  extmem_part : B → Frame A B

-- a serialized value
pub record Serialized (A B : Type 0) : Type 0 where
  pub id : ℕ
  pub typename : String
  pub content : A
  pub extmem : Option B

-- the calls of the sender
pub data Sending (A B : Type 0) : Type 0 where
  sends_value : String → Serialized A B → Sending A B
  sends_ping sends_pong : ℕ → Sending A B
  sends_request_all : Sending A B
  sends_injected sends_rejected : String → Sending A B

-- The methods of an event listener, and the answer to a value. They are given what was unpacked, or
-- None after a timeout.
pub record Listener (V S : Type 0) : Type 0 where
  pub ping_received : Option Packable → S → Result S
  pub pong_received : Option Packable → S → Result S
  pub request_all_received : S → Result S
  pub blocked_value_injected_received : Option Packable → S → Result S
  pub blocked_value_rejected_received : Option Packable → S → Result S
  pub value_received : Option Packable → V → ℕ → S → Result (S × String)

-- What is left of a message, the responses that were sent, and the state of the listener.
pub record Exchange (A B S : Type 0) : Type 0 where
  pub frames : List (Frame A B)
  pub responses : List String
  pub state : S

module _ {A B : Type 0} where
  abbrev pub extmem_frames : Option B → List (Frame A B)
  extmem_frames none = []
  extmem_frames (some e) = extmem_part e ∷ []

  -- the list of messages that a call of the sender sends
  unfoldable pub messages : Sending A B → List (Frame A B)
  messages (sends_value topic s) =
      packed (text "value")
      ∷ packed (text topic)
      ∷ value_data s.id s.typename s.content
      ∷ extmem_frames s.extmem
  messages (sends_ping n) = packed (text "ping") ∷ packed (number n) ∷ []
  messages (sends_pong n) = packed (text "pong") ∷ packed (number n) ∷ []
  messages sends_request_all = packed (text "command") ∷ packed (text "sendAll") ∷ []
  messages (sends_injected topic) =
      packed (text "command") ∷ packed (text "valueInjected") ∷ packed (text topic) ∷ []
  messages (sends_rejected topic) =
      packed (text "command") ∷ packed (text "valueRejected") ∷ packed (text topic) ∷ []

-- TypeRegistry: the types by the names that their values are serialized with
unfoldable pub type_registry : {T : Type 0} → List (String × T) → Dict String T
type_registry types = register types []
  where
    register : {T : Type 0} → List (String × T) → Dict String T → Dict String T
    register [] d = d
    register ((name, tp) ∷ rest) d = register rest (insert name tp d)

abbrev pub is_text : String → Option Packable → Bool
is_text s none = false
is_text s (some (text t)) = t == s
is_text s (some (number n)) = false

module _ {A B V S : Type 0} (listener : Option (Listener V S))
    (types : Dict String (A → Option B → Result V)) where
  abbrev Step : Type 0
  Step = Result (Exchange A B S)

  -- _receive_and_unpack_data; other frames are no single msgpack object
  unfoldable pub receive_and_unpack_data :
      Exchange A B S → Result (Exchange A B S × Option Packable)
  receive_and_unpack_data x = elim x.frames [
    | [] ↦ ok (x, none)
    | frame ∷ rest ↦ elim frame [
      | packed p ↦ ok (record x { frames = rest }, some p)
      | value_data id typename a ↦ raise value_error
      | extmem_part e ↦ raise value_error
    ]
  ]

  unfoldable pub send_response : String → Exchange A B S → Exchange A B S
  send_response r x = record x { responses = x.responses ++ r ∷ [] }

  -- a call of the listener, if there is one
  unfoldable pub notify : (Listener V S → S → Result S) → Exchange A B S → Step
  notify call x = elim listener [
    | none ↦ ok x
    | some l ↦ (do s ← call l x.state; ok (record x { state = s }))
  ]

  -- the next object, an empty response, and a call of the listener with the object
  unfoldable pub receive_and_notify :
      (Listener V S → Option Packable → S → Result S) → Exchange A B S → Step
  unfolding receive_and_unpack_data send_response notify
  receive_and_notify call x = do
    (x', p) ← receive_and_unpack_data x
    notify (λ l. call l p) (send_response "" x')

  unfoldable pub receive_ping : Exchange A B S → Step
  unfolding receive_and_notify
  receive_ping x = receive_and_notify (λ l. l.ping_received) x

  unfoldable pub receive_pong : Exchange A B S → Step
  unfolding receive_and_notify
  receive_pong x = receive_and_notify (λ l. l.pong_received) x

  -- An unsupported command is not answered.
  unfoldable pub receive_command : Exchange A B S → Step
  unfolding receive_and_unpack_data send_response notify receive_and_notify
  receive_command x = do
    (x', command) ← receive_and_unpack_data x
    if is_text "sendAll" command
        then notify (λ l. l.request_all_received) (send_response "" x')
        else if is_text "valueInjected" command
        then receive_and_notify (λ l. l.blocked_value_injected_received) x'
        else if is_text "valueRejected" command
        then receive_and_notify (λ l. l.blocked_value_rejected_received) x'
        else ok x'

  -- `_receive`, where there is more of the message
  unfoldable pub receive_extmem : Exchange A B S → Result (Exchange A B S × Option B)
  receive_extmem x = elim x.frames [
    | [] ↦ ok (x, none)
    | frame ∷ rest ↦ elim frame [
      | packed p ↦ raise value_error
      | value_data id typename a ↦ raise value_error
      | extmem_part e ↦ ok (record x { frames = rest }, some e)
    ]
  ]

  -- the call of the listener with a value, which the source does not guard by a test for None
  unfoldable pub hand_over : Option Packable → V → ℕ → Exchange A B S → Step
  unfolding send_response
  hand_over topic v id x = elim listener [
    | none ↦ raise attribute_error
    | some l ↦ (do
      (s, result) ← l.value_received topic v id x.state
      ok (send_response result (record x { state = s })))
  ]

  unfoldable pub receive_value : Exchange A B S → Step
  unfolding receive_and_unpack_data receive_extmem send_response hand_over
  receive_value x = do
    (x', topic) ← receive_and_unpack_data x
    elim x'.frames [
      | [] ↦ raise value_error
      | frame ∷ rest ↦ elim frame [
        | packed p ↦ raise value_error
        | extmem_part e ↦ raise value_error
        | value_data id typename a ↦ (do
          (x'', extmem) ← receive_extmem (record x' { frames = rest })
          elim (lookup typename types) [
            | none ↦ ok (send_response "REJECTED" x'')
            | some deserialize ↦ (do v ← deserialize a extmem; hand_over topic v id x'')
          ])
      ]
    ]

  -- receive: False after a timeout and for an unexpected kind, which is not answered
  unfoldable pub receive : Exchange A B S → Result (Exchange A B S × Bool)
  unfolding receive_and_unpack_data receive_ping receive_pong receive_command receive_value
  receive x = do
    (x', kind) ← receive_and_unpack_data x
    if is_text "ping" kind
        then (do y ← receive_ping x'; ok (y, true))
        else if is_text "pong" kind
        then (do y ← receive_pong x'; ok (y, true))
        else if is_text "command" kind
        then (do y ← receive_command x'; ok (y, true))
        else if is_text "value" kind
        then (do y ← receive_value x'; ok (y, true))
        else ok (x', false)
