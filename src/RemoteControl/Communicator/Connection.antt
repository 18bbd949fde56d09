-- ===== src/RemoteControl/Communicator/Connection.antt =====
-- What the calls of a communicator without a thread of its own do to its connection.
use flux_mcf.Prelude.{
  ℕ, ◌≡◌, ◌∙◌, refl, sym, subst, Bool, true, false, Option, none, some, Bool-cases, inl, inr,
  nat_beq, nat_beq_refl, if◌then◌else◌, attribute_error, runtime_error, arith,
}
use flux_mcf.RemoteControl.Communicator.{
  Worker, current, own, running, Communicator, Outcome, returned, raised, blocked, M, then_do,
  raw_connect, raw_disconnect, raw_is_connected, submit_to, submit, shutdown_worker, drop_worker,
  ignore_timeout, is_connected, disconnect, close_old, connect,
}
use flux_mcf.RemoteControl.Communicator.Calls.{NotBlocked, Kept, IsQuiet, is_connected-IsQuiet}

-- the worker that there may be with a socket or without one
abbrev pub Serves : Option Worker → Bool → Type 0
Serves none socket = socket ≡ false
Serves (some (current t)) socket = socket ≡ true
Serves (some (own w)) socket = ⊥

module _ {F : Type 0} where
  -- Without a thread of its own there is a worker exactly while there are a socket and a context.
  pub record IsConsistent (c : Communicator F) : Type 0 where
    pub mode : c.own_thread ≡ false
    pub together : c.context ≡ c.socket
    pub serves : Serves c.worker c.socket

  -- a call that keeps this and returns to its caller
  pub record IsSafe {A : Type 0} (r : Communicator F × Outcome A) : Type 0 where
    pub consistent : IsConsistent r.0
    pub answers : NotBlocked r.1

  Kept-IsSafe :
      {A : Type 0} (c : Communicator F) (r : Communicator F × Outcome A)
      → IsConsistent c
      → Kept c r
      → IsSafe r
  Kept-IsSafe c r h k = record {
    consistent = record {
      mode = k.same_mode ∙ h.mode;
      together = k.same_context ∙ h.together ∙ sym k.same_socket;
      serves = rw (k.same_worker, k.same_socket) h.serves;
    };
    answers = k.answers;
  }

  pub then-IsSafe :
      {A B : Type 0} (r : Communicator F × Outcome A) (f : A → M F B)
      → IsSafe r
      → ((a : A) (c : Communicator F) → IsConsistent c → IsSafe (f a c))
      → IsSafe (then_do r f)
  then-IsSafe (c, returned a) f h g = g a c h.consistent
  then-IsSafe (c, raised e) f h g = record { consistent = h.consistent; answers = tt }
  then-IsSafe (c, blocked) f h g = absurd h.answers

  pub stays-IsSafe :
      {A : Type 0} (c : Communicator F) (o : Outcome A)
      → IsConsistent c
      → NotBlocked o
      → IsSafe (c, o)
  stays-IsSafe c o h n = record { consistent = h; answers = n }

  submit_to-IsSafe :
      {A : Type 0} (w : Option Worker) (caller : ℕ) (op : M F A) (c : Communicator F)
      → c.worker ≡ w
      → IsQuiet op
      → IsConsistent c
      → IsSafe (submit_to w caller op c)
  unfolding submit_to
  submit_to-IsSafe none caller op c e quiet h = stays-IsSafe c (raised attribute_error) h tt
  submit_to-IsSafe (some (current t)) caller op c e quiet h = elim (Bool-cases (nat_beq t caller)) [
    | inl same ↦ rw same (Kept-IsSafe c (op c) h (quiet c))
    | inr differs ↦ rw differs (stays-IsSafe c (raised runtime_error) h tt)
  ]
  submit_to-IsSafe (some (own w)) caller op c e quiet h =
      absurd (subst (λ o. Serves o c.socket) e h.serves)

  pub submit-IsSafe :
      {A : Type 0} (caller : ℕ) (op : M F A) (c : Communicator F)
      → IsQuiet op
      → IsConsistent c
      → IsSafe (submit caller op c)
  unfolding submit
  submit-IsSafe caller op c quiet h = submit_to-IsSafe c.worker caller op c refl quiet h

  if-IsSafe :
      {A : Type 0} (b : Bool) (x y : Communicator F × Outcome A)
      → (b ≡ true → IsSafe x)
      → (b ≡ false → IsSafe y)
      → IsSafe (if b then x else y)
  if-IsSafe true x y f g = f refl
  if-IsSafe false x y f g = g refl

  -- the new worker of connect
  raw_connect-IsSafe :
      (b : Bool) (caller : ℕ) (c : Communicator F)
      → c.own_thread ≡ false
      → b ≡ false
      → IsSafe (
          submit caller raw_connect
            (record c { worker = some (if b then own running else current caller) }))
  unfolding submit submit_to raw_connect
  raw_connect-IsSafe true caller c mode h = absurd (ground arith)
  raw_connect-IsSafe false caller c mode h =
      if-IsSafe (nat_beq caller caller) _ _
        (λ same. record {
          consistent = record { mode = mode; together = refl; serves = refl };
          answers = tt;
        })
        (λ differs. absurd (ground (arith, nat_beq_refl caller)))

  drop_current :
      (w : Option Worker) (t : ℕ) (c : Communicator F)
      → some (current t) ≡ w
      → c.own_thread ≡ false
      → c.context ≡ false
      → c.socket ≡ false
      → IsSafe (then_do (shutdown_worker w c) (λ _ c'. (record c' { worker = none }, returned tt)))
  unfolding shutdown_worker
  drop_current w t c e mode no_context no_socket =
      subst
        (λ o.
          IsSafe
            (then_do (shutdown_worker o c) (λ _ c'. (record c' { worker = none }, returned tt))))
        e
        (record {
          consistent = record {
            mode = mode;
            together = no_context ∙ sym no_socket;
            serves = no_socket;
          };
          answers = tt;
        })

  closing :
      (b : Bool) (t : ℕ) (c : Communicator F)
      → c.worker ≡ some (current t)
      → IsConsistent c
      → IsSafe (
          then_do
            (ignore_timeout (if b then raw_disconnect c else (c, raised runtime_error)))
            (λ _ c'. drop_worker c'))
  unfolding raw_disconnect ignore_timeout drop_worker
  closing true t c e h =
      drop_current c.worker t (record c { socket = false; context = false }) (sym e) h.mode refl
        refl
  closing false t c e h = stays-IsSafe c (raised runtime_error) h tt

  disconnect_with :
      (w : Option Worker) (caller : ℕ) (c : Communicator F)
      → c.worker ≡ w
      → IsConsistent c
      → IsSafe
          (then_do (ignore_timeout (submit_to w caller raw_disconnect c)) (λ _ c'. drop_worker c'))
  unfolding submit_to ignore_timeout
  disconnect_with none caller c e h = stays-IsSafe c (raised attribute_error) h tt
  disconnect_with (some (current t)) caller c e h = closing (nat_beq t caller) t c e h
  disconnect_with (some (own w)) caller c e h = absurd (subst (λ o. Serves o c.socket) e h.serves)

  pub disconnect-IsSafe :
      (caller : ℕ) (c : Communicator F) → IsConsistent c → IsSafe (disconnect caller c)
  unfolding disconnect submit
  disconnect-IsSafe caller c h =
      if-IsSafe c.socket _ _ (λ up. disconnect_with c.worker caller c refl h)
        (λ closed. stays-IsSafe c (returned tt) h tt)

  pub is_connected-IsSafe :
      (caller : ℕ) (c : Communicator F) → IsConsistent c → IsSafe (is_connected caller c)
  unfolding is_connected
  is_connected-IsSafe caller c h =
      elim (c.worker)
        as (λ o.
          IsSafe {A = Bool}
            (elim o [ none ↦ (c, returned false) | some w ↦ submit caller raw_is_connected c ])) [
              | none ↦ stays-IsSafe c (returned false) h tt
              | some w ↦ submit-IsSafe caller raw_is_connected c is_connected-IsQuiet h
            ]

  shutdown-IsSafe :
      (w : Option Worker) (c : Communicator F)
      → c.worker ≡ w
      → IsConsistent c
      → IsSafe (shutdown_worker w c)
  unfolding shutdown_worker
  shutdown-IsSafe none c e h = stays-IsSafe c (raised attribute_error) h tt
  shutdown-IsSafe (some (current t)) c e h = stays-IsSafe c (returned tt) h tt
  shutdown-IsSafe (some (own w)) c e h = absurd (subst (λ o. Serves o c.socket) e h.serves)

  close_old-IsSafe :
      (caller : ℕ) (c : Communicator F) → IsConsistent c → IsSafe (close_old caller c)
  unfolding close_old
  close_old-IsSafe caller c h =
      elim (c.worker)
        as (λ o. IsSafe {A = Unit {0}} (elim o [
          | none ↦ (c, returned tt)
          | some w ↦
              then_do (is_connected caller c)
                (λ b. if b then disconnect caller else (λ c'. shutdown_worker c'.worker c'))
        ])) [
          | none ↦ stays-IsSafe c (returned tt) h tt
          | some w ↦
              then-IsSafe (is_connected caller c) _ (is_connected-IsSafe caller c h) (λ b c' h'.
                elim b
                  as (λ b.
                    IsSafe (
                      (if b then disconnect caller else (λ c'. shutdown_worker c'.worker c')) c')) [
                        | true ↦ disconnect-IsSafe caller c' h'
                        | false ↦ shutdown-IsSafe c'.worker c' refl h'
                      ])
        ]

  pub connect-IsSafe :
      (caller : ℕ) (c : Communicator F) → IsConsistent c → IsSafe (connect caller c)
  unfolding connect
  connect-IsSafe caller c h =
      then-IsSafe (close_old caller c) _ (close_old-IsSafe caller c h)
        λ _ c' h'. raw_connect-IsSafe c'.own_thread caller c' h'.mode h'.mode
