-- ===== src/RemoteControl/Communicator/Calls.antt =====
-- What the operations of a communicator's worker do to the connection.
use flux_mcf.Prelude.{
  ℕ, zero, suc, ◌≡◌, ◌∙◌, refl, Bool, true, false, not, Option, none, some, List, if◌then◌else◌,
  ◌++◌, [], ◌∷◌, attribute_error, connection_timeout, zmq_error,
}
use flux_mcf.RemoteControl.Communicator.{
  Communicator, Incoming, Outcome, returned, raised, blocked, M, then_do, return, raw_set_timeout,
  raw_is_connected, poll, raw_receive, post, raw_send, get_rcvmore, receive_more, read_parts,
  raw_read_value,
}

abbrev pub NotBlocked : {A : Type 0} → Outcome A → Type 0
NotBlocked blocked = ⊥
NotBlocked _ = Unit

module _ {F : Type 0} where
  -- an operation on the socket that keeps it and the worker
  pub record Kept {A : Type 0} (c : Communicator F) (r : Communicator F × Outcome A) : Type 0 where
    pub same_context : r.0.context ≡ c.context
    pub same_socket : r.0.socket ≡ c.socket
    pub same_worker : r.0.worker ≡ c.worker
    pub same_mode : r.0.own_thread ≡ c.own_thread
    pub answers : NotBlocked r.1

  abbrev pub IsQuiet : {A : Type 0} → M F A → Type 0
  IsQuiet op = (c : Communicator F) → Kept c (op c)

  Kept-then :
      {A B : Type 0} (c : Communicator F) (r : Communicator F × Outcome A) (f : A → M F B)
      → Kept c r
      → ((a : A) → IsQuiet (f a))
      → Kept c (then_do r f)
  Kept-then c (c', returned a) f k quiet =
      let k' = quiet a c' in
      record {
        same_context = k'.same_context ∙ k.same_context;
        same_socket = k'.same_socket ∙ k.same_socket;
        same_worker = k'.same_worker ∙ k.same_worker;
        same_mode = k'.same_mode ∙ k.same_mode;
        answers = k'.answers;
      }
  Kept-then c (c', raised e) f k quiet = record {
    same_context = k.same_context;
    same_socket = k.same_socket;
    same_worker = k.same_worker;
    same_mode = k.same_mode;
    answers = tt;
  }
  Kept-then c (c', blocked) f k quiet = absurd k.answers

  Kept-if :
      {A : Type 0} (c : Communicator F) (b : Bool) (x y : Communicator F × Outcome A)
      → Kept c x
      → Kept c y
      → Kept c (if b then x else y)
  Kept-if c true x y kx ky = kx
  Kept-if c false x y kx ky = ky

  -- a change of what the socket is about to do
  stays :
      {A : Type 0} (c : Communicator F) (polls : ℕ → Option (Incoming F)) (takes : ℕ → Bool)
      (rcvmore : Bool) (timeout : ℕ) (sent : List (List F)) (o : Outcome A)
      → NotBlocked o
      → Kept c (
        record c {
          polls = polls;
          takes = takes;
          rcvmore = rcvmore;
          timeout = timeout;
          sent = sent;
        },
        o,
      )
  stays c polls takes rcvmore timeout sent o h = record {
    same_context = refl;
    same_socket = refl;
    same_worker = refl;
    same_mode = refl;
    answers = h;
  }

  untouched : {A : Type 0} (c : Communicator F) (o : Outcome A) → NotBlocked o → Kept c (c, o)
  untouched c o h = stays c c.polls c.takes c.rcvmore c.timeout c.sent o h

  pub set_timeout-IsQuiet : (t : ℕ) → IsQuiet (raw_set_timeout t)
  unfolding raw_set_timeout
  set_timeout-IsQuiet t c = stays c c.polls c.takes c.rcvmore t c.sent (returned tt) tt

  pub is_connected-IsQuiet : IsQuiet raw_is_connected
  unfolding raw_is_connected
  is_connected-IsQuiet c = untouched c (returned c.socket) tt

  -- a state that differs from a kept one in nothing that counts
  Kept-from :
      {A : Type 0} (c c' : Communicator F) (r : Communicator F × Outcome A)
      → Kept c (c', returned tt)
      → Kept c' r
      → Kept c r
  Kept-from c c' r k k' = record {
    same_context = k'.same_context ∙ k.same_context;
    same_socket = k'.same_socket ∙ k.same_socket;
    same_worker = k'.same_worker ∙ k.same_worker;
    same_mode = k'.same_mode ∙ k.same_mode;
    answers = k'.answers;
  }

  poll-IsQuiet : (n : ℕ) → IsQuiet (poll n)
  unfolding poll
  poll-IsQuiet zero c = untouched c (raised connection_timeout) tt
  poll-IsQuiet (suc n) c =
      let polls : ℕ → Option (Incoming F) = λ k. c.polls (suc k) in
      let moved = stays c polls c.takes c.rcvmore c.timeout c.sent (returned tt) tt in
      let rest =
        Kept-from c (record c { polls = polls }) (poll n (record c { polls = polls })) moved
          (poll-IsQuiet n (record c { polls = polls })) in
      elim (c.polls 0)
        as (λ o. Kept {A = F} c (elim o [
          | some i ↦ (record c { polls = polls; rcvmore = i.more }, returned i.frame)
          | none ↦ poll n (record c { polls = polls })
        ])) [
          | none ↦ rest
          | some i ↦ stays c polls c.takes i.more c.timeout c.sent (returned i.frame) tt
        ]

  no_socket :
      (n : ℕ) (c : Communicator F)
      → Kept {A = F} c
          (elim n [ zero ↦ (c, raised connection_timeout) | suc k ↦ (c, raised attribute_error) ])
  no_socket zero c = untouched c (raised connection_timeout) tt
  no_socket (suc k) c = untouched c (raised attribute_error) tt

  pub receive-IsQuiet : IsQuiet raw_receive
  unfolding raw_receive
  receive-IsQuiet c =
      Kept-if c c.socket (poll c.timeout c) _ (poll-IsQuiet c.timeout c) (no_socket c.timeout c)

  post-IsQuiet : (frames : List F) → IsQuiet (post frames)
  unfolding post
  post-IsQuiet frames c =
      let takes : ℕ → Bool = λ k. c.takes (suc k) in
      Kept-if c (not c.socket) _ _ (untouched c (raised attribute_error) tt) (
        Kept-if c (c.takes 0) _ _
          (stays c c.polls takes c.rcvmore c.timeout (c.sent ++ frames ∷ []) (returned tt) tt)
          (stays c c.polls takes c.rcvmore c.timeout c.sent (raised zmq_error) tt))

  pub send-IsQuiet : (frames : List F) → IsQuiet (raw_send frames)
  unfolding raw_send
  send-IsQuiet frames c =
      Kept-then c (post frames c) (λ _. raw_receive) (post-IsQuiet frames c) (λ _. receive-IsQuiet)

  rcvmore-IsQuiet : IsQuiet get_rcvmore
  unfolding get_rcvmore
  rcvmore-IsQuiet c =
      Kept-if c c.socket _ _ (untouched c (returned c.rcvmore) tt)
        (untouched c (raised attribute_error) tt)

  more-IsQuiet : (b : Bool) → IsQuiet (receive_more b)
  unfolding receive_more
  more-IsQuiet false c = untouched c (returned none) tt
  more-IsQuiet true c =
      Kept-then c (raw_receive c) (λ f. return (some f)) (receive-IsQuiet c)
        (λ f c'. untouched c' (returned (some f)) tt)

  parts-IsQuiet : (response : F) (b : Bool) → IsQuiet (read_parts response b)
  unfolding read_parts
  parts-IsQuiet response false c = untouched c (returned (none, none, response)) tt
  parts-IsQuiet response true c =
      Kept-then c (raw_receive c) _ (receive-IsQuiet c) λ packed_value c'.
        Kept-then c' (get_rcvmore c') _ (rcvmore-IsQuiet c') λ more c''.
          Kept-then c'' (receive_more more c'') _ (more-IsQuiet more c'')
            λ extmem c₃. untouched c₃ (returned (some packed_value, extmem, response)) tt

  pub read_value-IsQuiet : (cmd : List F) → IsQuiet (raw_read_value cmd)
  unfolding raw_read_value
  read_value-IsQuiet cmd c = Kept-then c (raw_send cmd c) _ (send-IsQuiet cmd c) λ response c'.
      Kept-then c' (get_rcvmore c') _ (rcvmore-IsQuiet c') λ more. parts-IsQuiet response more
