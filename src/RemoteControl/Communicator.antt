-- ===== src/RemoteControl/Communicator.antt =====
-- `ZmqCommunicator` of mcf_py/mcf/zmq_communicator.py over the workers of mcf_py/mcf/worker.py. What
-- the socket does is given from outside: what each poll for a frame finds, and whether it takes a
-- message. A call is made by the thread `caller`. A thread that waits for ever is the outcome
-- `blocked`. The own thread of a worker has handled its timeout when the next call is made.
pub mod Calls
pub mod Connection
pub mod Sequences
pub mod Timeouts
use flux_mcf.Prelude.{
  ℕ, zero, suc, Bool, true, false, not, Option, none, some, List, [], ◌∷◌, ◌++◌, nat_beq,
  if◌then◌else◌, Exception, attribute_error, runtime_error, connection_timeout, zmq_error,
}

-- what ReusableThread has come to: its `_connection_timed_out`, or its end by another exception,
-- after which no run finishes
pub data ThreadState : Type 0 where
  running timed_out ended : ThreadState

-- CurrThreadWorker and OwnThreadWorker
pub data Worker : Type 0 where
  current : (thread_id : ℕ) → Worker
  own : ThreadState → Worker

-- a frame, and whether more of the message follows
pub record Incoming (F : Type 0) : Type 0 where
  pub frame : F
  pub more : Bool

pub record Communicator (F : Type 0) : Type 0 where
  pub context : Bool
  pub socket : Bool
  pub timeout : ℕ
  pub own_thread : Bool
  pub worker : Option Worker
  pub polls : ℕ → Option (Incoming F)
  pub takes : ℕ → Bool
  pub rcvmore : Bool
  pub sent : List (List F)

pub data Outcome (A : Type 0) : Type 0 where
  returned : A → Outcome A
  raised : Exception → Outcome A
  blocked : Outcome A

-- an exception keeps what was done before
abbrev pub M : Type 0 → Type 0 → Type 0
M F A = Communicator F → Communicator F × Outcome A

abbrev pub then_do :
    {F A B : Type 0} → Communicator F × Outcome A → (A → M F B) → Communicator F × Outcome B
then_do (c, returned a) f = f a c
then_do (c, raised e) f = (c, raised e)
then_do (c, blocked) f = (c, blocked)

infixl 5 ◌>>=◌ ◌>>◌
abbrev pub ◌>>=◌ : {F A B : Type 0} → M F A → (A → M F B) → M F B
◌>>=◌ m f c = then_do (m c) f

abbrev pub ◌>>◌ : {F A B : Type 0} → M F A → M F B → M F B
m >> k = m >>= λ _. k

abbrev pub return : {F A : Type 0} → A → M F A
return a c = (c, returned a)

abbrev pub throw : {F A : Type 0} → Exception → M F A
throw e c = (c, raised e)

module _ {F : Type 0} where
  unfoldable pub new_communicator :
      ℕ → Bool → (ℕ → Option (Incoming F)) → (ℕ → Bool) → Communicator F
  new_communicator timeout own_thread polls takes = record {
    context = false;
    socket = false;
    timeout = timeout;
    own_thread = own_thread;
    worker = none;
    polls = polls;
    takes = takes;
    rcvmore = false;
    sent = [];
  }

  -- _connect, of a url that zmq takes: its errors for another one are left out
  unfoldable pub raw_connect : M F (Unit {0})
  raw_connect c = (record c { context = true; socket = true }, returned tt)

  -- _set_timeout
  unfoldable pub raw_set_timeout : ℕ → M F (Unit {0})
  raw_set_timeout t c = (record c { timeout = t }, returned tt)

  -- _is_connected; a socket is only closed where the reference to it is dropped
  unfoldable pub raw_is_connected : M F Bool
  raw_is_connected c = (c, returned c.socket)

  -- _disconnect
  unfoldable pub raw_disconnect : M F (Unit {0})
  raw_disconnect c = (record c { socket = false; context = false }, returned tt)

  -- the loop of _receive over the polls
  unfoldable pub poll : ℕ → M F F
  poll zero c = (c, raised connection_timeout)
  poll (suc n) c =
      let c' : Communicator F = record c { polls = λ k. c.polls (suc k) } in
      elim (c.polls 0) [
        | some i ↦ (record c' { rcvmore = i.more }, returned i.frame)
        | none ↦ poll n c'
      ]

  -- _receive; without a socket the first poll is an AttributeError
  unfoldable pub raw_receive : M F F
  unfolding poll
  raw_receive c = if c.socket then poll c.timeout c else elim c.timeout [
    | zero ↦ (c, raised connection_timeout)
    | suc n ↦ (c, raised attribute_error)
  ]

  -- the first part of _send
  unfoldable pub post : List F → M F (Unit {0})
  post frames c =
      let c' : Communicator F = record c { takes = λ k. c.takes (suc k) } in
      if not c.socket
      then (c, raised attribute_error)
      else if c.takes 0
      then (record c' { sent = c.sent ++ frames ∷ [] }, returned tt)
      else (c', raised zmq_error)

  -- _send
  unfoldable pub raw_send : List F → M F F
  unfolding post raw_receive
  raw_send frames = post frames >> raw_receive

  -- getsockopt(zmq.RCVMORE)
  unfoldable pub get_rcvmore : M F Bool
  get_rcvmore c = if c.socket then (c, returned c.rcvmore) else (c, raised attribute_error)

  unfoldable pub receive_more : Bool → M F (Option F)
  unfolding raw_receive
  receive_more false = return none
  receive_more true = do f ← raw_receive; return (some f)

  unfoldable pub read_parts : F → Bool → M F (Option F × Option F × F)
  unfolding raw_receive get_rcvmore receive_more
  read_parts response false = return (none, none, response)
  read_parts response true = do
    packed_value ← raw_receive
    more ← get_rcvmore
    extmem ← receive_more more
    return (some packed_value, extmem, response)

  -- _read_value
  unfoldable pub raw_read_value : List F → M F (Option F × Option F × F)
  unfolding raw_send get_rcvmore read_parts
  raw_read_value cmd = do response ← raw_send cmd; more ← get_rcvmore; read_parts response more

  -- what OwnThreadWorker.submit makes of a run of its thread
  unfoldable pub after_run : {A : Type 0} → Communicator F × Outcome A → Communicator F × Outcome A
  after_run (c, returned a) = (c, returned a)
  after_run (c, raised connection_timeout) =
      (record c { worker = some (own timed_out) }, raised connection_timeout)
  after_run (c, raised e) = (record c { worker = some (own ended) }, blocked)
  after_run (c, blocked) = (c, blocked)

  -- submit
  unfoldable pub submit_to : {A : Type 0} → Option Worker → ℕ → M F A → M F A
  unfolding after_run
  submit_to none caller op c = (c, raised attribute_error)
  submit_to (some (current t)) caller op c =
      if nat_beq t caller then op c else (c, raised runtime_error)
  submit_to (some (own running)) caller op c = after_run (op c)
  submit_to (some (own timed_out)) caller op c = (c, raised connection_timeout)
  submit_to (some (own ended)) caller op c = (c, blocked)

  unfoldable pub submit : {A : Type 0} → ℕ → M F A → M F A
  unfolding submit_to
  submit caller op c = submit_to c.worker caller op c

  -- worker.shutdown(): a thread that has ended by itself is only asked to finish once more if it
  -- did not time out
  unfoldable pub shutdown_worker : Option Worker → M F (Unit {0})
  shutdown_worker none c = (c, raised attribute_error)
  shutdown_worker (some (current t)) c = (c, returned tt)
  shutdown_worker (some (own ended)) c = (c, blocked)
  shutdown_worker (some (own w)) c = (c, returned tt)

  -- set_timeout
  unfoldable pub set_timeout : ℕ → ℕ → M F (Unit {0})
  unfolding submit raw_set_timeout
  set_timeout caller t = submit caller (raw_set_timeout t)

  -- is_connected
  unfoldable pub is_connected : ℕ → M F Bool
  unfolding submit raw_is_connected
  is_connected caller c = elim c.worker [
    | none ↦ (c, returned false)
    | some w ↦ submit caller raw_is_connected c
  ]

  -- `except RCConnectionTimeout: pass`
  unfoldable pub ignore_timeout :
      Communicator F × Outcome (Unit {0}) → Communicator F × Outcome (Unit {0})
  ignore_timeout (c, raised connection_timeout) = (c, returned tt)
  ignore_timeout r = r

  unfoldable pub drop_worker : M F (Unit {0})
  unfolding shutdown_worker
  drop_worker c =
      then_do (shutdown_worker c.worker c) (λ _ c'. (record c' { worker = none }, returned tt))

  -- disconnect
  unfoldable pub disconnect : ℕ → M F (Unit {0})
  unfolding submit raw_disconnect ignore_timeout drop_worker
  disconnect caller c =
      if c.socket
      then then_do (ignore_timeout (submit caller raw_disconnect c)) (λ _ c'. drop_worker c')
      else (c, returned tt)

  unfoldable pub close_old : ℕ → M F (Unit {0})
  unfolding is_connected disconnect shutdown_worker
  close_old caller c = elim c.worker [
    | none ↦ (c, returned tt)
    | some w ↦
        (is_connected caller >>= λ b.
        if b then disconnect caller else (λ c'. shutdown_worker c'.worker c'))
          c
  ]

  -- connect
  unfoldable pub connect : ℕ → M F (Unit {0})
  unfolding close_old submit raw_connect
  connect caller = close_old caller >> λ c.
      submit caller raw_connect
        (record c { worker = some (if c.own_thread then own running else current caller) })

  unfoldable pub receive : ℕ → M F F
  unfolding submit raw_receive
  receive caller = submit caller raw_receive

  unfoldable pub send : ℕ → List F → M F F
  unfolding submit raw_send
  send caller frames = submit caller (raw_send frames)

  unfoldable pub read_value : ℕ → List F → M F (Option F × Option F × F)
  unfolding submit raw_read_value
  read_value caller cmd = submit caller (raw_read_value cmd)
