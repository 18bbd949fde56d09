-- ===== src/Remote/Receiver/Protocol.antt =====
-- What the receiver does with what the sender sends.
use flux_mcf.Prelude.{
  ℕ, String, ◌≡◌, refl, Bool, true, Option, none, some, [], ◌∷◌, string_eq, Result, ok, raise,
  ◌>>=◌, inl, inr, Option-cases,
}
use flux_mcf.Prelude.Dict.{Dict, lookup}
use flux_mcf.Remote.Receiver.{
  text, number, Sending, sends_value, sends_ping, sends_pong, sends_request_all, sends_injected,
  sends_rejected, Listener, Exchange, messages, send_response, receive_extmem, hand_over, receive,
}

module _ {A B V S : Type 0} (l : Listener V S) (types : Dict String (A → Option B → Result V)) where
  -- the call of the listener that a call of the sender leads to, and the response
  unfoldable pub handled : Sending A B → S → Result (S × String)
  handled (sends_value topic x) s = elim (lookup x.typename types) [
    | none ↦ ok (s, "REJECTED")
    | some deserialize ↦ (do
      v ← deserialize x.content x.extmem
      l.value_received (some (text topic)) v x.id s)
  ]
  handled (sends_ping n) s = do s' ← l.ping_received (some (number n)) s; ok (s', "")
  handled (sends_pong n) s = do s' ← l.pong_received (some (number n)) s; ok (s', "")
  handled sends_request_all s = do s' ← l.request_all_received s; ok (s', "")
  handled (sends_injected topic) s = do
    s' ← l.blocked_value_injected_received (some (text topic)) s
    ok (s', "")
  handled (sends_rejected topic) s = do
    s' ← l.blocked_value_rejected_received (some (text topic)) s
    ok (s', "")

  abbrev pub answered : S × String → Result (Exchange A B S × Bool)
  answered (s, response) = ok (record { frames = []; responses = response ∷ []; state = s }, true)

  -- a call without a result
  called :
      (m : Result S)
      → ((m >>= λ s. ok (record { frames = []; responses = "" ∷ []; state = s })) >>= λ y.
          ok (y, true))
        ≡ ((m >>= λ s. ok (s, "")) >>= answered)
  called (ok s) = refl
  called (raise e) = refl

  -- the call with a value
  valued :
      (m : Result V) (k : V → Result (S × String))
      → ((m >>= λ v. (k v >>= λ (s, r). ok (record { frames = []; responses = r ∷ []; state = s })))
          >>= λ y. ok (y, true))
        ≡ ((m >>= k) >>= answered)
  valued (ok v) k = result (k v)
    where
      result :
          (o : Result (S × String))
          → ((o >>= λ (s, r). ok (record { frames = []; responses = r ∷ []; state = s })) >>= λ y.
              ok (y, true))
            ≡ (o >>= answered)
      result (ok (s, r)) = refl
      result (raise e) = refl
  valued (raise e) k = refl

  value-messages :
      (topic typename : String) (id : ℕ) (a : A) (e : Option B) (s : S)
      → (let m =
            sends_value topic (record { id = id; typename = typename; content = a; extmem = e }) in
          receive (some l) types (record { frames = messages m; responses = []; state = s })
          ≡ (handled m s >>= answered))
  unfolding messages handled receive receive_extmem send_response hand_over
  value-messages topic typename id a none s = elim (Option-cases (lookup typename types)) [
    | inl none_there ↦ rw (none_there, handled) refl
    | inr (deserialize, there) ↦
        rw (there, handled)
          (valued (deserialize a none) (λ v. l.value_received (some (text topic)) v id s))
  ]
  value-messages topic typename id a (some e) s = elim (Option-cases (lookup typename types)) [
    | inl none_there ↦ rw (none_there, handled) refl
    | inr (deserialize, there) ↦
        rw (there, handled)
          (valued (deserialize a (some e)) (λ v. l.value_received (some (text topic)) v id s))
  ]

  pub receive-messages :
      (m : Sending A B) (s : S)
      → receive (some l) types (record { frames = messages m; responses = []; state = s })
        ≡ (handled m s >>= answered)
  unfolding messages handled receive send_response
  receive-messages (sends_ping n) s = called (l.ping_received (some (number n)) s)
  receive-messages (sends_pong n) s = called (l.pong_received (some (number n)) s)
  receive-messages sends_request_all s = called (l.request_all_received s)
  receive-messages (sends_injected topic) s =
      called (l.blocked_value_injected_received (some (text topic)) s)
  receive-messages (sends_rejected topic) s =
      called (l.blocked_value_rejected_received (some (text topic)) s)
  receive-messages (sends_value topic x) s =
      value-messages topic x.typename x.id x.content x.extmem s
