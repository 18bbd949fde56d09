-- ===== src/Remote/Pair/Status.antt =====
-- What sending does to the state of a pair.
use flux_mcf.Prelude.{
  ℕ, suc, String, ◌≡◌, inl, inr, refl, Bool, true, false, ◌∷◌, [], ◌++◌, Bool-cases, Result, ok,
  Exception, attribute_error, arith,
}
use flux_mcf.Remote.Tracker.{is_up, sending_timeout}
use flux_mcf.Remote.Pair.{
  Pair, SendResult, injected, received, rejected, timed_out, other, Message, value,
  check_for_response, post, after_result, send_value, connected,
}

-- the answers of a peer that never holds a value back and speaks the protocol
abbrev pub IsPlain : SendResult → Type 0
IsPlain injected = Unit
IsPlain rejected = Unit
IsPlain timed_out = Unit
IsPlain _ = ⊥

module _ {V : Type 0} where
  -- The sender has a socket, and every answer to come is plain.
  pub record IsReady (p : Pair V) : Type 0 where
    pub open_socket : p.sender_connected ≡ true
    pub plain : (n : ℕ) → IsPlain (check_for_response (p.answers n))

  -- what is known after a send: it timed out and the pair is no longer connected, or the value was
  -- taken or rejected and the tracker is as before
  pub data Settled (p p' : Pair V) : SendResult → Type 0 where
    lost : connected p' ≡ false → Settled p p' timed_out
    taken : p'.tracker ≡ p.tracker → Settled p p' injected
    refused : p'.tracker ≡ p.tracker → Settled p p' rejected

  pub record Sent (p : Pair V) (outcome : Result (Pair V × SendResult)) : Type 0 where
    pub after : Pair V
    pub result : SendResult
    pub returns : outcome ≡ ok (after, result)
    pub ready : IsReady after
    pub settled : Settled p after result

  post-Sent :
      (p p' : Pair V) (r : SendResult)
      → p'.tracker ≡ p.tracker
      → IsReady p'
      → IsPlain r
      → Sent p (ok (after_result r p', r))
  unfolding after_result connected sending_timeout
  post-Sent p p' injected same h plain = record {
    after = p';
    result = injected;
    returns = refl;
    ready = h;
    settled = taken same;
  }
  post-Sent p p' rejected same h plain = record {
    after = p';
    result = rejected;
    returns = refl;
    ready = h;
    settled = refused same;
  }
  post-Sent p p' timed_out same h plain = record {
    after = record p' { tracker = sending_timeout p'.tracker };
    result = timed_out;
    returns = refl;
    ready = record { open_socket = h.open_socket; plain = h.plain };
    settled = lost (unfold is_up in refl);
  }
  post-Sent p p' received same h plain = absurd plain
  post-Sent p p' (other t) same h plain = absurd plain

  abbrev pub posted : Message V → Pair V → Pair V
  posted m p = record p { answers = λ n. p.answers (suc n); sent = p.sent ++ m ∷ [] }

  pub post_lem :
      (e : Exception) (m : Message V) (p : Pair V)
      → p.sender_connected ≡ true
      → post e m p ≡ ok (posted m p, check_for_response (p.answers 0))
  unfolding post
  post_lem e m p h = ground arith

  posted-IsReady : (m : Message V) (p : Pair V) → IsReady p → IsReady (posted m p)
  posted-IsReady m p h = record { open_socket = h.open_socket; plain = λ n. h.plain (suc n) }

  -- A value sent over an open socket to a peer that injects, rejects or stays silent ends without an
  -- error, in one of two ways: the time ran out and the pair is not connected any more, or the
  -- value was injected or rejected and the tracker is as before.
  pub send_value-Sent :
      (is_value : V → Bool) (topic : String) (v : V) (p : Pair V)
      → IsReady p
      → Sent p (send_value is_value topic v p)
  unfolding send_value
  send_value-Sent is_value topic v p h = elim (Bool-cases (is_value v)) [
    | inl mcf ↦
        rw (mcf, post_lem attribute_error (value topic v) p h.open_socket)
          (post-Sent p (posted (value topic v) p) (check_for_response (p.answers 0)) refl
            (posted-IsReady (value topic v) p h) (h.plain 0))
    | inr no_mcf ↦
        rw no_mcf (record {
          after = p;
          result = rejected;
          returns = refl;
          ready = h;
          settled = refused refl;
        })
  ]
