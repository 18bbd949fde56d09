-- ===== src/Remote/Link/Front.antt =====
-- One value of a queue sent over a link whose other side answers every value in one way.
use flux_mcf.Prelude.{
  ℕ, suc, String, ◌≡◌, ◌∙◌, refl, ap, Bool, true, false, some, List, [], ◌∷◌, ◌++◌, nat_beq_refl,
  if◌then◌else◌, Result, ok, attribute_error, ◌>>=◌, arith,
}
use flux_mcf.World.{World, ValueQueue}
use flux_mcf.ValueQueue.{empty, peek, pop, value_of}
use flux_mcf.ValueQueue.Frame.{front_of, rest_of, peek_with_topic_lem, queue-pop, result-pop}
use flux_mcf.Remote.Pair
use flux_mcf.Remote.Pair.{
  Pair, Message, value, SendResult, injected, rejected, check_for_response, after_result,
  send_value,
}
use flux_mcf.Remote.Pair.Status.{posted, post_lem}
use flux_mcf.Remote.Service.{Service, SendRule}
use flux_mcf.Remote.Sending.{put_world, after_queue_send, send_front}

-- the answer to every value
abbrev pub verdict : Bool → SendResult
verdict taken = if taken then injected else rejected

-- a rule with a queue, no forced send and nothing pending
abbrev pub idle_rule : String → ℕ → ℕ → SendRule
idle_rule topic queue_length q = record {
  topic = topic;
  queue_length = queue_length;
  forced_send = false;
  send_pending = false;
  queue = some q;
}

module _ {V : Type 0} where
  -- The connection is up, and the other side answers as said.
  pub record IsAnswered (taken : Bool) (p : Pair V) : Type 0 where
    pub open_socket : p.sender_connected ≡ true
    pub up : Pair.connected p ≡ true
    pub answered : (n : ℕ) → check_for_response (p.answers n) ≡ verdict taken

  posted-IsAnswered :
      (taken : Bool) (m : Message V) (p : Pair V)
      → IsAnswered taken p
      → IsAnswered taken (posted m p)
  unfolding Pair.connected
  posted-IsAnswered taken m p h = record {
    open_socket = h.open_socket;
    up = h.up;
    answered = λ n. h.answered (suc n);
  }

  -- the messages of the values of a queue
  abbrev pub values_under : String → List (V × String) → List (Message V)
  values_under topic [] = []
  values_under topic ((v, t) ∷ l) = value topic v ∷ values_under topic l

  peek_front :
      (q : ℕ) (v : V) (t : String) (l : List (V × String)) (w : World V)
      → (w.queues q).queue ≡ (v, t) ∷ l
      → (peek q w).1 ≡ ok v
  unfolding peek value_of
  peek_front q v t l w h = ap value_of ((peek_with_topic_lem q w).0 ∙ ap front_of h)

  peek_queues : (q : ℕ) (w : World V) → (peek q w).0.queues ≡ w.queues
  unfolding peek
  peek_queues q w = (peek_with_topic_lem q w).1

  pop_front :
      (q : ℕ) (v : V) (t : String) (l : List (V × String)) (w : World V)
      → (w.queues q).queue ≡ (v, t) ∷ l
      → ((pop q w).1 ≡ ok v) × (((pop q w).0.queues q).queue ≡ l)
  unfolding pop value_of
  pop_front q v t l w h = (
    ap value_of (result-pop q w ∙ ap front_of h),
    queue-pop q q w ∙ rw (nat_beq_refl q) (ap rest_of h),
  )

  -- one value sent
  pub record Front (taken : Bool) (topic : String) (queue_length q : ℕ) (v : V)
      (l : List (V × String)) (s : Service V) (outcome : Result (SendRule × Service V))
      : Type 0 where
    pub after : Service V
    pub returns : outcome ≡ ok (idle_rule topic queue_length q, after)
    pub left : (after.shared.world.queues q).queue ≡ l
    pub sent : after.pair.sent ≡ s.pair.sent ++ value topic v ∷ []
    pub answered : IsAnswered taken after.pair
    pub same_start : after.initialized ≡ s.initialized

  pub empty_filled :
      (q : ℕ) (x : V × String) (l : List (V × String)) (w : World V)
      → (w.queues q).queue ≡ x ∷ l
      → empty q w ≡ false
  unfolding empty
  empty_filled q x l w h = rw h (ground arith)

  pub empty_over : (q : ℕ) (w : World V) → (w.queues q).queue ≡ [] → empty q w ≡ true
  unfolding empty
  empty_over q w h = rw h

  module _ (is_value : V → Bool) where
    send_value_lem :
        (taken : Bool) (topic : String) (v : V) (p : Pair V)
        → is_value v ≡ true
        → IsAnswered taken p
        → send_value is_value topic v p ≡ ok (posted (value topic v) p, verdict taken)
    unfolding send_value
    send_value_lem true topic v p mcf h =
        rw (mcf, post_lem attribute_error (value topic v) p h.open_socket, h.answered 0)
          (unfold after_result in refl)
    send_value_lem false topic v p mcf h =
        rw (mcf, post_lem attribute_error (value topic v) p h.open_socket, h.answered 0)
          (unfold after_result in refl)

    pop_then :
        (taken : Bool) (topic : String) (queue_length q : ℕ) (s : Service V)
        → after_queue_send is_value (verdict taken) q (idle_rule topic queue_length q) s ≡ (
            (pop q s.shared.world).1 >>= λ _.
            ok (idle_rule topic queue_length q, put_world is_value (pop q s.shared.world).0 s))
    unfolding after_queue_send
    pop_then true topic queue_length q s = refl
    pop_then false topic queue_length q s = refl

    pub send_front-Front :
        (taken : Bool) (topic : String) (queue_length q : ℕ) (v : V) (t : String)
        (l : List (V × String)) (s : Service V)
        → is_value v ≡ true
        → IsAnswered taken s.pair
        → (s.shared.world.queues q).queue ≡ (v, t) ∷ l
        → Front taken topic queue_length q v l s
            (send_front is_value q (idle_rule topic queue_length q) s)
    unfolding send_front
    send_front-Front taken topic queue_length q v t l s mcf answered h =
        let w = (peek q s.shared.world).0 in
        let same = ap (λ (f : ℕ → ValueQueue V). (f q).queue) (peek_queues q s.shared.world) ∙ h in
        let (gives, left) = pop_front q v t l w same in
        rw
          (
            peek_front q v t l s.shared.world h,
            send_value_lem taken topic v s.pair mcf answered,
            pop_then taken topic queue_length q
                (record (put_world is_value w s) { pair = posted (value topic v) s.pair }),
            gives,
          )
          (record {
            after =
                put_world is_value (pop q w).0 (record s { pair = posted (value topic v) s.pair });
            returns = refl;
            left = left;
            sent = refl;
            answered = posted-IsAnswered taken (value topic v) s.pair answered;
            same_start = refl;
          })
