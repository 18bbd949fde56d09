-- ===== src/RemoteControl/Values/RoundTrip.antt =====
-- Values written and read by the remote control client.
use flux_mcf.Prelude.{
  ℕ, suc, String, ◌≡◌, ◌∙◌, refl, ap, Bool, true, false, Option, none, some, List, [], ◌∷◌, ◌++◌,
  nat_beq, drop, ok, type_error, string_eq, arith,
}
use flux_mcf.RemoteControl.Communicator
use flux_mcf.RemoteControl.Communicator.{
  Communicator, Incoming, current, Outcome, returned, raised, M, return, ◌>>=◌, then_do, poll,
  raw_receive, post, raw_send, get_rcvmore, receive_more, read_parts, raw_read_value, submit,
  submit_to,
}
use flux_mcf.RemoteControl.Objects.{
  Obj, integer, text, array, dict, Fields, end, field, Frame, objects, raw, item, ReadValue,
  check_response, unpackb, more_of, decode_packed, decode_response, decode_value, or_rc_error,
  unpack_value,
}
use flux_mcf.RemoteControl.Replay.{command}
use flux_mcf.RemoteControl.Client.{lift, packed, request}
use flux_mcf.RemoteControl.Values.Online.{online, send-online, read-online}
use flux_mcf.RemoteControl.Values.{
  ValueType, both, written, check_type, set, get, value_of, read_value, read_all_values, read_all,
  write_value, call_read_value, write_body, write_messages, extmem_frame,
}

checks :
    {A : Type 0} (fs : Fields A)
    → item "type" (dict fs) ≡ ok (text "response")
    → check_response (dict fs) ≡ ok true
unfolding check_response
checks fs h = rw h

module _ {A B : Type 0} where
  -- what becomes of a successful answer
  accepted :
      (fs : Fields A) (r : Communicator (Frame A B) × Outcome (Frame A B))
      → item "type" (dict fs) ≡ ok (text "response")
      → r.1 ≡ returned (objects (dict fs ∷ []))
      → (let t = then_do (then_do r (λ p. lift (unpackb p))) (λ o. lift (check_response o)) in
          (t.1 ≡ returned true) × (t.0 ≡ r.0))
  unfolding unpackb
  accepted fs (c, returned f) kind h =
      let e : f ≡ objects (dict fs ∷ []) = cc in rw (e, checks fs kind) (refl, refl)
  accepted fs (c, raised e) kind h = absurd (ground arith)
  accepted fs (c, Outcome.blocked) kind h = absurd (ground arith)

module _ {A B V : Type 0} (type : ValueType A B V) (caller : ℕ) (topic : String)
    (text_has_more : String → Bool) (array_has_more : A → Bool) where
  -- A value that comes back from its content, its type name and its extmem part, and whose id is
  -- not 0, which is not sent.
  pub record IsRestored (v : V) : Type 0 where
    pub has_type : type.is_instance v ≡ true
    pub has_id : nat_beq (type.id v) 0 ≡ false
    pub bare : V
    pub deserializes :
        type.deserialize
          (array (type.content v))
          (text (type.typename v))
          (elim (type.extmem v) [ none ↦ none | some b ↦ some (raw b) ])
        ≡ ok bare
    pub restores : type.inject_id (integer (type.id v)) bare ≡ v

  -- a response to a request for a value
  pub record IsResponse (fs : Fields A) : Type 0 where
    pub kind : item "type" (dict fs) ≡ ok (text "response")
    pub more : Obj A
    pub tells : more_of text_has_more array_has_more (dict fs) ≡ ok more

  pub record Returns (timeout : ℕ) (fs : Fields A) (sent : List (List (Frame A B))) (v : V)
      (timestamp : Option ℕ) : Type 0 where
    pub messages : List (Frame A B)
    pub sets :
        (set type caller topic both v timestamp
          (online caller timeout (objects (dict fs ∷ []) ∷ []) sent)).1
        ≡ returned true
    pub sends :
        (set type caller topic both v timestamp
          (online caller timeout (objects (dict fs ∷ []) ∷ []) sent)).0.sent
        ≡ sent ++ messages ∷ []
    pub gets :
        (get type caller topic text_has_more array_has_more both
          (online caller timeout (objects (dict fs ∷ []) ∷ drop 1 messages) sent)).1
        ≡ returned (some v)

  set-online :
      (timeout : ℕ) (fs : Fields A) (sent : List (List (Frame A B))) (v : V) (timestamp : Option ℕ)
      → IsRestored v
      → IsResponse fs
      → (let r =
            set type caller topic both v timestamp
              (online caller timeout (objects (dict fs ∷ []) ∷ []) sent) in
          (r.1 ≡ returned true)
          × (r.0.sent ≡ sent ++ write_messages (written type caller topic v timestamp) ∷ []))
  unfolding set check_type write_value request
  set-online timeout fs sent v timestamp h response =
      let frames = write_messages (written type caller topic v timestamp) in
      let (answers, sends) = send-online caller timeout sent (objects (dict fs ∷ [])) frames in
      let (result, same) =
        accepted fs
          (Communicator.send caller frames
            (online caller timeout (objects (dict fs ∷ []) ∷ []) sent))
          response.kind answers in
      rw h.has_type (result, ap (λ c. c.sent) same ∙ sends)

  decodes :
      (fs : Fields A) (v : V) (timestamp : Option ℕ) (e : Option (Frame A B))
      → IsRestored v
      → (response : IsResponse fs)
      → decode_value text_has_more array_has_more
          (some (objects (write_body (written type caller topic v timestamp))))
          e
          true
          (objects (dict fs ∷ []))
        ≡ ok (
          some (record {
            id = some (integer (type.id v));
            content = array (type.content v);
            typename = text (type.typename v);
            extmem = e;
          }),
          response.more,
        )
  unfolding decode_value unpackb decode_response or_rc_error decode_packed unpack_value write_body
  decodes fs v timestamp e h response = rw (h.has_id, response.kind, response.tells)

  -- the rest of read_value
  abbrev then_do_value :
      Option (Frame A B) → Option (Frame A B) → Frame A B → M (Frame A B) (Option (ReadValue A B))
  then_do_value p e f = do
    (value, more) ← lift (decode_value text_has_more array_has_more p e true f)
    return value

  -- what becomes of the frames of the value
  restored :
      (fs : Fields A) (v : V) (timestamp : Option ℕ)
      (r : Communicator (Frame A B) × Outcome (Option (Frame A B) × Option (Frame A B) × Frame A B))
      → (h : IsRestored v) → IsResponse fs
      → r.1
        ≡ returned (
          some (objects (write_body (written type caller topic v timestamp))),
          elim (type.extmem v) [ none ↦ none | some b ↦ some (raw b) ],
          objects (dict fs ∷ []),
        )
      → (then_do
          (then_do r (λ x. then_do_value x.0 x.1 x.2))
          (λ o. lift (value_of type caller topic o))).1
        ≡ returned (some v)
  unfolding value_of
  restored fs v timestamp (c, returned (p, e, f)) h response eq =
      let part : Option (Frame A B) = elim (type.extmem v) [
        | none ↦ none
        | some b ↦ some (raw b)
      ] in
      let at_p : p ≡ some (objects (write_body (written type caller topic v timestamp))) = cc in
      let at_e : e ≡ part = cc in
      let at_f : f ≡ objects (dict fs ∷ []) = cc in
      rw (at_p, at_e, at_f, decodes fs v timestamp part h response, h.deserializes, h.restores)
  restored fs v timestamp (c, raised e) h response eq = absurd (ground arith)
  restored fs v timestamp (c, Outcome.blocked) h response eq = absurd (ground arith)

  gets-online :
      (timeout : ℕ) (fs : Fields A) (sent : List (List (Frame A B))) (v : V) (timestamp : Option ℕ)
      → (h : IsRestored v) → IsResponse fs
      → (get type caller topic text_has_more array_has_more both (
          online caller timeout
            (objects (dict fs ∷ [])
              ∷ objects (write_body (written type caller topic v timestamp))
              ∷ extmem_frame (type.extmem v))
            sent)).1
        ≡ returned (some v)
  unfolding get read_value call_read_value value_of
  gets-online timeout fs sent v timestamp h response =
      let cmd = packed (command "read_value" (field "topic" (text topic) end)) in
      let body = objects (write_body (written type caller topic v timestamp)) in
      restored fs v timestamp
        (Communicator.read_value caller cmd (
          online caller timeout (objects (dict fs ∷ []) ∷ body ∷ extmem_frame (type.extmem v))
            sent))
        h response
        (read-online caller timeout sent (objects (dict fs ∷ [])) body (type.extmem v) cmd)

  -- With a type whose values come back from content, type name and extmem part, an accessor that has set a value with an id
  -- other than 0 over an open connection is told so, has sent one message, and gets the same value when the target
  -- answers a request with the frames of that message but the first, after a response.
  pub set-Returns :
      (timeout : ℕ) (fs : Fields A) (sent : List (List (Frame A B))) (v : V) (timestamp : Option ℕ)
      → IsRestored v
      → IsResponse fs
      → Returns timeout fs sent v timestamp
  unfolding write_messages
  set-Returns timeout fs sent v timestamp h response =
      let (sets, sends) = set-online timeout fs sent v timestamp h response in
      record {
        messages = write_messages (written type caller topic v timestamp);
        sets = sets;
        sends = sends;
        gets = gets-online timeout fs sent v timestamp h response;
      }

  -- read_all_values of a positive number of values raises a TypeError and sends nothing.
  pub read_all_values_lem :
      (array_truth : A → Bool) (n : ℕ) (with_id : Bool) (c : Communicator (Frame A B))
      → read_all_values caller text_has_more array_has_more array_truth topic (suc n) with_id c
        ≡ (c, raised type_error)
  unfolding read_all_values read_all call_read_value
  read_all_values_lem array_truth n with_id c = refl
