-- ===== src/RemoteControl/Client/Params.antt =====
-- The parameters of a replay, written and read by the remote control client.
use flux_mcf.Prelude.{
  ℕ, String, Result, ◌≡◌, refl, Bool, true, false, Option, none, some, List, [], ◌∷◌, ◌++◌, ok,
  string_eq, arith,
}
use flux_mcf.RemoteControl.Communicator
use flux_mcf.RemoteControl.Communicator.{
  Communicator, Outcome, returned, raised, M, return, ◌>>=◌, then_do,
}
use flux_mcf.RemoteControl.Objects.{
  Obj, text, dict, Fields, end, Frame, objects, find, item, is_text, append_text, content_of,
  check_response, unpackb,
}
use flux_mcf.RemoteControl.Replay.{
  RunMode, continuous, single_step, step_time, mode_number, run_mode_of, ReplayParams, params_of,
  params_fields, command,
}
use flux_mcf.RemoteControl.Client.{
  lift, packed, request, order, ask, set_replay_params, get_replay_params,
}
use flux_mcf.RemoteControl.Values.Online.{online, send-online}

module _ {A : Type 0} where
  -- the command with the parameters
  abbrev pub set_command : ReplayParams A → Obj A
  set_command p = command "set_replay_params" (params_fields p)

  params_of-set_command : (p : ReplayParams A) → params_of (set_command p) ≡ ok p
  unfolding params_of params_fields item find mode_number run_mode_of
  params_of-set_command p = at_mode p.run_mode
    where
      at_mode :
          (m : RunMode)
          → params_of (set_command (record p { run_mode = m })) ≡ ok (record p { run_mode = m })
      at_mode continuous = refl
      at_mode single_step = refl
      at_mode step_time = refl

  -- an answer that is a response with some content, or is none and has a text instead
  pub record IsAnswer (accepted : Bool) (content : Obj A) (fs : Fields A) : Type 0 where
    pub kind : Obj A
    pub has_kind : item "type" (dict fs) ≡ ok kind
    pub accepts : is_text "response" kind ≡ accepted
    pub has_content : item "content" (dict fs) ≡ ok content

  check_response-accepted :
      (content : Obj A) (fs : Fields A)
      → IsAnswer true content fs
      → check_response (dict fs) ≡ ok true
  unfolding check_response
  check_response-accepted content fs h = rw (h.has_kind, h.accepts)

  check_response-refused :
      (reason : String) (fs : Fields A)
      → IsAnswer false (text reason) fs
      → check_response (dict fs) ≡ ok false
  unfolding check_response append_text
  check_response-refused reason fs h = rw (h.has_kind, h.accepts, h.has_content)

  content_of-accepted :
      (content : Obj A) (fs : Fields A)
      → IsAnswer true content fs
      → content_of (dict fs) ≡ ok (some content)
  unfolding content_of
  content_of-accepted content fs h = rw (h.has_kind, h.accepts, h.has_content)

  content_of-refused :
      (reason : String) (fs : Fields A)
      → IsAnswer false (text reason) fs
      → content_of (dict fs) ≡ ok none
  unfolding content_of append_text
  content_of-refused reason fs h = rw (h.has_kind, h.accepts, h.has_content)

module _ {A B : Type 0} (caller timeout : ℕ) (sent : List (List (Frame A B))) where
  -- the connection before an answer
  abbrev pub before : Fields A → Communicator (Frame A B)
  before fs = online caller timeout (objects (dict fs ∷ []) ∷ []) sent

  request-answer :
      (cmd : Obj A) (fs : Fields A)
      → let r = request caller (packed cmd) (before fs) in
        (r.1 ≡ returned (dict fs)) × (r.0.sent ≡ sent ++ packed cmd ∷ [])
  unfolding request unpackb
  request-answer cmd fs =
      let (answers, sends) =
        send-online caller timeout sent (objects (dict fs ∷ [])) (packed cmd) in
      unpacked (Communicator.send caller (packed cmd) (before fs)) answers sends
    where
      unpacked :
          (r : Communicator (Frame A B) × Outcome (Frame A B))
          → r.1 ≡ returned (objects (dict fs ∷ []))
          → r.0.sent ≡ sent ++ packed cmd ∷ []
          → (let t = then_do r (λ f. lift (unpackb f)) in
              (t.1 ≡ returned (dict fs)) × (t.0.sent ≡ sent ++ packed cmd ∷ []))
      unpacked (c, returned f) answers sends =
          let e : f ≡ objects (dict fs ∷ []) = cc in rw e (refl, sends)
      unpacked (c, raised e) answers sends = absurd (ground arith)
      unpacked (c, Outcome.blocked) answers sends = absurd (ground arith)

  -- the rest of a call, after its request
  then-answer :
      {X : Type 0} (k : Obj A → Result X) (x : X) (cmd : Obj A) (fs : Fields A)
      → k (dict fs) ≡ ok x
      → let r = then_do (request caller (packed cmd) (before fs)) (λ o. lift (k o)) in
        (r.1 ≡ returned x) × (r.0.sent ≡ sent ++ packed cmd ∷ [])
  then-answer k x cmd fs h =
      let (answers, sends) = request-answer cmd fs in
      handled (request caller (packed cmd) (before fs)) answers sends
    where
      handled :
          (r : Communicator (Frame A B) × Outcome (Obj A))
          → r.1 ≡ returned (dict fs)
          → r.0.sent ≡ sent ++ packed cmd ∷ []
          → (let t = then_do r (λ o. lift (k o)) in
              (t.1 ≡ returned x) × (t.0.sent ≡ sent ++ packed cmd ∷ []))
      handled (c, returned o) answers sends = let e : o ≡ dict fs = cc in rw (e, h) (refl, sends)
      handled (c, raised e) answers sends = absurd (ground arith)
      handled (c, Outcome.blocked) answers sends = absurd (ground arith)

  -- get_replay_params after its question
  abbrev then_params : Option (Obj A) → M (Frame A B) (Option (ReplayParams A))
  then_params content = elim content [
    | none ↦ return none
    | some o ↦ (do p ← lift (params_of o); return (some p))
  ]

  get-answer :
      (content : Option (Obj A)) (params : Option (ReplayParams A)) (fs : Fields A)
      → content_of (dict fs) ≡ ok content
      → ((c : Communicator (Frame A B)) → (then_params content c).1 ≡ returned params)
      → (get_replay_params caller (before fs)).1 ≡ returned params
  unfolding get_replay_params ask
  get-answer content params fs h ends =
      handled (ask caller (command "get_replay_params" end) (before fs))
        (then-answer content_of content (command "get_replay_params" end) fs h).0
    where
      handled :
          (r : Communicator (Frame A B) × Outcome (Option (Obj A)))
          → r.1 ≡ returned content
          → (then_do r then_params).1 ≡ returned params
      handled (c, returned o) answers = let e : o ≡ content = cc in rw e (ends c)
      handled (c, raised e) answers = absurd (ground arith)
      handled (c, Outcome.blocked) answers = absurd (ground arith)

  -- The parameters that set_replay_params sends over an open connection, in one message, are those
  -- that get_replay_params gives when the target answers with the content of that message. Each
  -- call gives False if it is answered by something that is no response and has a text, and
  -- set_replay_params gives True if it is answered by a response.
  pub replay_params-Returned :
      (p : ReplayParams A) (content : Obj A) (reason : String)
      (accepting telling refusing : Fields A)
      → IsAnswer true content accepting
      → IsAnswer true (set_command p) telling
      → IsAnswer false (text reason) refusing
      → ((set_replay_params caller p (before accepting)).1 ≡ returned true)
        × ((set_replay_params caller p (before accepting)).0.sent
            ≡ sent ++ packed (set_command p) ∷ [])
        × ((get_replay_params caller (before telling)).1 ≡ returned (some p))
        × ((set_replay_params caller p (before refusing)).1 ≡ returned false)
        × ((get_replay_params caller (before refusing)).1 ≡ returned none)
  unfolding set_replay_params order
  replay_params-Returned p content reason accepting telling refusing accepts tells refuses =
      let (set, sends) =
        then-answer check_response true (set_command p) accepting
          (check_response-accepted content accepting accepts) in
      (
        set,
        sends,
        get-answer (some (set_command p)) (some p) telling
            (content_of-accepted (set_command p) telling tells) (λ c. rw (params_of-set_command p)),
        (then-answer check_response false (set_command p) refusing
            (check_response-refused reason refusing refuses)).0,
        get-answer none none refusing (content_of-refused reason refusing refuses) (λ c. refl),
      )
