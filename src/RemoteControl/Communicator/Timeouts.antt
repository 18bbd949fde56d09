-- ===== src/RemoteControl/Communicator/Timeouts.antt =====
-- A communicator with a thread of its own after a timeout.
use flux_mcf.Prelude.{
  ℕ, ◌≡◌, ◌∙◌, refl, sym, subst, Bool, true, false, some, none, Option, List, ap, attribute_error,
  connection_timeout, if◌then◌else◌, arith,
}
use flux_mcf.RemoteControl.Communicator.{
  Worker, current, own, running, timed_out, Communicator, Outcome, returned, raised, blocked,
  then_do, after_run, raw_send, raw_connect, raw_is_connected, submit_to, submit, shutdown_worker,
  drop_worker, ignore_timeout, set_timeout, is_connected, disconnect, close_old, connect, receive,
  send, read_value,
}
use flux_mcf.RemoteControl.Communicator.Calls.{Kept, send-IsQuiet}

module _ {F : Type 0} where
  -- what is left of the calls
  pub record IsStuck (c : Communicator F) : Type 0 where
    pub sends :
        (caller : ℕ) (frames : List F) → send caller frames c ≡ (c, raised connection_timeout)
    pub receives : (caller : ℕ) → receive caller c ≡ (c, raised connection_timeout)
    pub reads :
        (caller : ℕ) (cmd : List F) → read_value caller cmd c ≡ (c, raised connection_timeout)
    pub sets : (caller t : ℕ) → set_timeout caller t c ≡ (c, raised connection_timeout)
    pub asks : (caller : ℕ) → is_connected caller c ≡ (c, raised connection_timeout)
    pub connects : (caller : ℕ) → connect caller c ≡ (c, raised connection_timeout)
    pub disconnects : (caller : ℕ) → disconnect caller c ≡ (record c { worker = none }, returned tt)
    pub disconnects_again :
        (caller : ℕ)
        → disconnect caller (record c { worker = none })
          ≡ (record c { worker = none }, raised attribute_error)
    pub connects_again :
        (caller : ℕ)
        → connect caller (record c { worker = none })
          ≡ (record c { worker = some (own running); context = true }, returned tt)

  asks_stuck :
      (caller : ℕ) (c : Communicator F)
      → c.worker ≡ some (own timed_out)
      → is_connected caller c ≡ (c, raised connection_timeout)
  unfolding is_connected submit submit_to
  asks_stuck caller c w =
      ap
        (λ (o : Option Worker). elim o [
          | none ↦ (c, returned false)
          | some v ↦ submit caller raw_is_connected c
        ])
        w
      ∙ (simp w)

  connects_stuck :
      (caller : ℕ) (c : Communicator F)
      → c.worker ≡ some (own timed_out)
      → connect caller c ≡ (c, raised connection_timeout)
  unfolding connect close_old
  connects_stuck caller c w =
      ap
        (λ (r : Communicator F × Outcome (Unit {0})). then_do r (λ _ c'.
          submit caller raw_connect
            (record c' { worker = some (if c'.own_thread then own running else current caller) })))
        (ap
            (λ (o : Option Worker). elim o [
              | none ↦ (c, returned tt)
              | some v ↦
                  then_do (is_connected caller c)
                    (λ b. if b then disconnect caller else (λ c'. shutdown_worker c'.worker c'))
            ])
            w
          ∙ ap
              (λ (r : Communicator F × Outcome Bool).
                then_do r
                  (λ b. if b then disconnect caller else (λ c'. shutdown_worker c'.worker c')))
              (asks_stuck caller c w))

  stuck :
      (c : Communicator F)
      → c.worker ≡ some (own timed_out)
      → c.socket ≡ true
      → c.own_thread ≡ true
      → IsStuck c
  unfolding send receive read_value set_timeout connect disconnect close_old submit submit_to
      ignore_timeout drop_worker shutdown_worker raw_connect after_run
  stuck c w s o = record {
    sends = λ caller frames. simp w;
    receives = λ caller. simp w;
    reads = λ caller cmd. simp w;
    sets = λ caller t. simp w;
    asks = λ caller. asks_stuck caller c w;
    connects = λ caller. connects_stuck caller c w;
    disconnects = λ caller. simp (w, s);
    disconnects_again = λ caller. simp s;
    connects_again = λ caller. simp (s, o);
  }

  after_run-timed_out :
      {A : Type 0} (c : Communicator F) (r : Communicator F × Outcome A)
      → Kept c r
      → (after_run r).1 ≡ raised connection_timeout
      → ((after_run r).0.worker ≡ some (own timed_out))
        × ((after_run r).0.socket ≡ c.socket)
        × ((after_run r).0.own_thread ≡ c.own_thread)
  unfolding after_run
  after_run-timed_out c (c', returned a) k h = absurd (ground arith)
  after_run-timed_out c (c', raised connection_timeout) k h = (refl, k.same_socket, k.same_mode)
  after_run-timed_out c (c', raised e) k h = absurd (ground arith)
  after_run-timed_out c (c', blocked) k h = absurd (ground arith)

  -- If a message is sent through the running thread of a communicator that has one and a socket, and the answer
  -- does not come in time, every later call raises RCConnectionTimeout and changes nothing, connect included, until disconnect
  -- is called. That drops the worker and keeps the socket, so that a second
  -- disconnect raises an AttributeError; connect then opens a new connection.
  pub send-IsStuck :
      (caller : ℕ) (frames : List F) (c : Communicator F)
      → c.worker ≡ some (own running)
      → c.socket ≡ true
      → c.own_thread ≡ true
      → (send caller frames c).1 ≡ raised connection_timeout
      → IsStuck (send caller frames c).0
  unfolding send submit submit_to
  send-IsStuck caller frames c w s o h =
      let runs = ap (λ (v : Option Worker). submit_to v caller (raw_send frames) c) w in
      let (worker, socket, mode) =
        after_run-timed_out c (raw_send frames c) (send-IsQuiet frames c)
          (ap (λ r. r.1) (sym runs) ∙ h) in
      subst (λ (r : Communicator F × Outcome F). IsStuck r.0) (sym runs)
        (stuck (after_run (raw_send frames c)).0 worker (socket ∙ s) (mode ∙ o))
