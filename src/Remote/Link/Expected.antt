-- ===== src/Remote/Link/Expected.antt =====
-- What is expected to arrive at a remote service from the messages of the other side.
use flux_mcf.Prelude.{
  ℕ, String, ◌≡◌, refl, Bool, true, false, Option, none, some, List, [], ◌∷◌, ◌++◌, All, ◌==◌,
  string_eq, if◌then◌else◌, Bool-cases, inl, inr, arith,
}
use flux_mcf.Prelude.Dict.{Dict, lookup}
use flux_mcf.Remote.Pair.{Message, value, ping, pong, send_all, value_injected, value_rejected}
use flux_mcf.Remote.Service.{ReceiveRule}

module _ {V : Type 0} where
  -- no value waits for its injection
  abbrev pub IsIdle : Dict String (ReceiveRule V) → Type 0
  IsIdle rules = All (λ (topic, r). r.pending_value ≡ none) rules

  unfoldable pub has_rule : String → Dict String (ReceiveRule V) → Bool
  has_rule topic rules = elim (lookup topic rules) [ none ↦ false | some r ↦ true ]

  pub pending-lookup :
      (topic : String) (rules : Dict String (ReceiveRule V)) (r : ReceiveRule V)
      → IsIdle rules
      → lookup topic rules ≡ some r
      → r.pending_value ≡ none
  unfolding lookup
  pending-lookup topic [] r idle h = absurd (ground arith)
  pending-lookup topic ((k, r') ∷ rules) r (here, later) h = elim (Bool-cases (k == topic)) [
    | inl same ↦ ground arith
    | inr differs ↦ pending-lookup topic rules r later (ground arith)
  ]

  -- What the messages of the other side make of the values of the store: those whose topic has a
  -- rule are written.
  unfoldable pub delivered :
      Dict String (ReceiveRule V) → List (ℕ × Message V) → (String → Option V) → String → Option V
  unfolding has_rule
  delivered rules [] m = m
  delivered rules ((now, value topic v) ∷ ms) m =
      delivered rules ms
        (if has_rule topic rules then (λ j. if topic == j then some v else m j) else m)
  delivered rules ((now, _) ∷ ms) m = delivered rules ms m

  unfoldable pub replies : Dict String (ReceiveRule V) → List (ℕ × Message V) → List String
  unfolding has_rule
  replies rules [] = []
  replies rules ((now, value topic v) ∷ ms) =
      (if has_rule topic rules then "INJECTED" else "REJECTED") ∷ replies rules ms
  replies rules ((now, _) ∷ ms) = "" ∷ replies rules ms

  -- the numbers of the pings, which are to be answered
  unfoldable pub pinged : List (ℕ × Message V) → List ℕ
  pinged [] = []
  pinged ((now, ping f) ∷ ms) = f ∷ pinged ms
  pinged ((now, _) ∷ ms) = pinged ms

  pub delivered-cons :
      (rules : Dict String (ReceiveRule V)) (now : ℕ) (m : Message V) (ms : List (ℕ × Message V))
      (c : String → Option V)
      → delivered rules ((now, m) ∷ ms) c ≡ delivered rules ms (delivered rules ((now, m) ∷ []) c)
  unfolding delivered
  delivered-cons rules now (value t v) ms c = refl
  delivered-cons rules now (ping f) ms c = refl
  delivered-cons rules now (pong f) ms c = refl
  delivered-cons rules now send_all ms c = refl
  delivered-cons rules now (value_injected t) ms c = refl
  delivered-cons rules now (value_rejected t) ms c = refl

  pub delivered_then :
      (ms : List (ℕ × Message V)) {rules rules' : Dict String (ReceiveRule V)}
      {c c' : String → Option V}
      → rules' ≡ rules
      → c' ≡ c
      → (j : String) → delivered rules' ms c' j ≡ delivered rules ms c j
  delivered_then ms same_rules same j = λ i. delivered (same_rules i) ms (same i) j

  pub replies-cons :
      (rules : Dict String (ReceiveRule V)) (now : ℕ) (m : Message V) (ms : List (ℕ × Message V))
      → replies rules ((now, m) ∷ ms) ≡ replies rules ((now, m) ∷ []) ++ replies rules ms
  unfolding replies
  replies-cons rules now (value t v) ms = refl
  replies-cons rules now (ping f) ms = refl
  replies-cons rules now (pong f) ms = refl
  replies-cons rules now send_all ms = refl
  replies-cons rules now (value_injected t) ms = refl
  replies-cons rules now (value_rejected t) ms = refl

  pub pinged-cons :
      (now : ℕ) (m : Message V) (ms : List (ℕ × Message V))
      → pinged ((now, m) ∷ ms) ≡ pinged ((now, m) ∷ []) ++ pinged ms
  unfolding pinged
  pinged-cons now (value t v) ms = refl
  pinged-cons now (ping f) ms = refl
  pinged-cons now (pong f) ms = refl
  pinged-cons now send_all ms = refl
  pinged-cons now (value_injected t) ms = refl
  pinged-cons now (value_rejected t) ms = refl
