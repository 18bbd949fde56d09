-- ===== src/RemoteControl/Communicator/Sequences.antt =====
-- The connection of a communicator under any calls.
use flux_mcf.Prelude.{ℕ, refl, Bool, false, Option, List, [], ◌∷◌}
use flux_mcf.RemoteControl.Communicator.{
  Communicator, Incoming, Outcome, returned, then_do, new_communicator, raw_receive, raw_send,
  raw_set_timeout, raw_read_value, set_timeout, is_connected, disconnect, connect, receive, send,
  read_value,
}
use flux_mcf.RemoteControl.Communicator.Calls.{
  set_timeout-IsQuiet, receive-IsQuiet, send-IsQuiet, read_value-IsQuiet,
}
use flux_mcf.RemoteControl.Communicator.Connection.{
  IsConsistent, IsSafe, then-IsSafe, stays-IsSafe, submit-IsSafe, is_connected-IsSafe,
  disconnect-IsSafe, connect-IsSafe,
}

-- the calls of a communicator
pub data Call (F : Type 0) : Type 0 where
  connects disconnects asks_connected receives : (caller : ℕ) → Call F
  sets_timeout : (caller timeout : ℕ) → Call F
  sends reads_value : (caller : ℕ) → List F → Call F

module _ {F : Type 0} where
  abbrev pub done : {A : Type 0} → Communicator F × Outcome A → Communicator F × Outcome (Unit {0})
  done r = then_do r (λ a c. (c, returned tt))

  unfoldable pub perform : Call F → Communicator F → Communicator F × Outcome (Unit {0})
  unfolding connect disconnect is_connected set_timeout receive send read_value
  perform (connects caller) c = connect caller c
  perform (disconnects caller) c = disconnect caller c
  perform (asks_connected caller) c = done (is_connected caller c)
  perform (receives caller) c = done (receive caller c)
  perform (sets_timeout caller t) c = set_timeout caller t c
  perform (sends caller frames) c = done (send caller frames c)
  perform (reads_value caller cmd) c = done (read_value caller cmd c)

  -- a sequence of calls; it goes on after an exception
  unfoldable pub perform_all : List (Call F) → Communicator F → Communicator F
  unfolding perform
  perform_all [] c = c
  perform_all (k ∷ ks) c = perform_all ks (perform k c).0

  done-IsSafe : {A : Type 0} (r : Communicator F × Outcome A) → IsSafe r → IsSafe (done r)
  done-IsSafe r h = then-IsSafe r _ h (λ a c h'. stays-IsSafe c (returned tt) h' tt)

  perform-IsSafe : (k : Call F) (c : Communicator F) → IsConsistent c → IsSafe (perform k c)
  unfolding perform receive send read_value set_timeout
  perform-IsSafe (connects caller) c h = connect-IsSafe caller c h
  perform-IsSafe (disconnects caller) c h = disconnect-IsSafe caller c h
  perform-IsSafe (asks_connected caller) c h = done-IsSafe _ (is_connected-IsSafe caller c h)
  perform-IsSafe (receives caller) c h =
      done-IsSafe _ (submit-IsSafe caller raw_receive c receive-IsQuiet h)
  perform-IsSafe (sets_timeout caller t) c h =
      submit-IsSafe caller (raw_set_timeout t) c (set_timeout-IsQuiet t) h
  perform-IsSafe (sends caller frames) c h =
      done-IsSafe _ (submit-IsSafe caller (raw_send frames) c (send-IsQuiet frames) h)
  perform-IsSafe (reads_value caller cmd) c h =
      done-IsSafe _ (submit-IsSafe caller (raw_read_value cmd) c (read_value-IsQuiet cmd) h)

  perform_all-IsConsistent :
      (ks : List (Call F)) (c : Communicator F) → IsConsistent c → IsConsistent (perform_all ks c)
  unfolding perform_all
  perform_all-IsConsistent [] c h = h
  perform_all-IsConsistent (k ∷ ks) c h =
      perform_all-IsConsistent ks (perform k c).0 (perform-IsSafe k c h).consistent

  -- A communicator without a thread of its own: after any calls, by any threads and whatever the socket does, a worker
  -- exists exactly while a socket and a context do, and the next call returns or raises; it never
  -- blocks for ever.
  pub perform-after-IsSafe :
      (ks : List (Call F)) (k : Call F) (timeout : ℕ) (polls : ℕ → Option (Incoming F))
      (takes : ℕ → Bool)
      → IsSafe (perform k (perform_all ks (new_communicator timeout false polls takes)))
  unfolding new_communicator
  perform-after-IsSafe ks k timeout polls takes =
      let c = new_communicator timeout false polls takes in
      perform-IsSafe k (perform_all ks c)
        (perform_all-IsConsistent ks c (record { mode = refl; together = refl; serves = refl }))
