-- ===== src/RemoteControl/Values/Online.antt =====
-- A communicator that is connected, and whose target answers at once.
use flux_mcf.Prelude.{
  ℕ, zero, suc, ◌≡◌, true, false, Option, none, some, List, [], ◌∷◌, ◌++◌, nat_beq_refl, string_eq,
}
use flux_mcf.RemoteControl.Communicator
use flux_mcf.RemoteControl.Communicator.{
  Communicator, Incoming, current, Outcome, returned, raised, M, return, ◌>>=◌, then_do, poll,
  raw_receive, post, raw_send, get_rcvmore, receive_more, read_parts, raw_read_value, submit,
  submit_to,
}
use flux_mcf.RemoteControl.Objects.{Frame, raw}
use flux_mcf.RemoteControl.Values.{extmem_frame}

module _ {F : Type 0} where
  -- the polls that find a message of some frames at once
  abbrev pub feed : List F → ℕ → Option (Incoming F)
  feed [] n = none
  feed (f ∷ []) zero = some (record { frame = f; more = false })
  feed (f ∷ g ∷ fs) zero = some (record { frame = f; more = true })
  feed (f ∷ fs) (suc n) = feed fs n

  -- A communicator that is connected by the calling thread, with a positive timeout, and the
  -- answer to come.
  abbrev pub online : ℕ → ℕ → List F → List (List F) → Communicator F
  online caller timeout answer sent = record {
    context = true;
    socket = true;
    timeout = suc timeout;
    own_thread = false;
    worker = some (current caller);
    polls = feed answer;
    takes = λ n. true;
    rcvmore = false;
    sent = sent;
  }

module _ {A B : Type 0} (caller timeout : ℕ) (sent : List (List (Frame A B))) where
  pub send-online :
      (answer : Frame A B) (frames : List (Frame A B))
      → let r = Communicator.send caller frames (online caller timeout (answer ∷ []) sent) in
        (r.1 ≡ returned answer) × (r.0.sent ≡ sent ++ frames ∷ [])
  unfolding Communicator.send submit submit_to raw_send post raw_receive poll
  send-online answer frames = (rw (nat_beq_refl caller), rw (nat_beq_refl caller))

  pub read-online :
      (response body : Frame A B) (e : Option B) (cmd : List (Frame A B))
      → (Communicator.read_value caller cmd
          (online caller timeout (response ∷ body ∷ extmem_frame e) sent)).1
        ≡ returned (some body, elim e [ none ↦ none | some b ↦ some (raw b) ], response)
  unfolding Communicator.read_value submit submit_to raw_read_value raw_send post raw_receive poll
      get_rcvmore read_parts receive_more
  read-online response body none cmd = rw (nat_beq_refl caller)
  read-online response body (some b) cmd = rw (nat_beq_refl caller)
