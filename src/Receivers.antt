-- ===== src/Receivers.antt =====
-- What the value store asks of its receivers, and what it may rely on.
use flux_mcf.Prelude.{ℕ, String, ◌≡◌, Bool}

-- The two methods of a receiver, by its reference, on the state `S` of all receivers. The store is no
-- part of that state: a receiver that calls the store it is called by is not covered.
pub record Receivers (V S : Type 0) : Type 0 where
  pub receive : ℕ → String → V → S → S × Bool
  pub expired : ℕ → S → Bool

-- A receiver answers whether it is expired, and a reception makes none expire.
pub record ReceiversLaws {V S : Type 0} (r : Receivers V S) : Type 0 where
  pub receive_answers : (i : ℕ) (t : String) (v : V) (s : S) → (r.receive i t v s).1 ≡ r.expired i s
  pub expired-receive :
      (i j : ℕ) (t : String) (v : V) (s : S) → r.expired j (r.receive i t v s).0 ≡ r.expired j s
