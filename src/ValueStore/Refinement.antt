-- ===== src/ValueStore/Refinement.antt =====
-- The store as a map from keys to values, whatever its entries, their order and their receivers are.
use flux_mcf.Prelude.{
  ℕ, String, ◌≡◌, refl, ap, ap₂, ◌∙◌, Option, none, some, List, [], ◌∷◌, ◌++◌, ◌==◌, string_eq,
  if◌then◌else◌, Result, ok, raise, fun_ext,
}
use flux_mcf.Receivers.{Receivers}
use flux_mcf.ValueStore.{
  ValueStore, receivers_of, write_value, get_value, set_value, add_receiver, add_all_topic_receiver,
}
use flux_mcf.ValueStore.Values.{get_value-write_value, get_value-add_receiver}
use flux_mcf.ValueStore.Delivery.{deliver, set_value_lem}

-- an operation of a client
pub data Request (V : Type 0) : Type 0 where
  sets : String → Option V → Request V
  gets : String → Request V
  adds_receiver : String → ℕ → Request V
  adds_all_topic_receiver : ℕ → Request V

-- what it is answered
pub data Reply (V : Type 0) : Type 0 where
  done refused : Reply V
  found : Option V → Reply V

-- the map that a client sees
abbrev pub Contents : Type 0 → Type 0
Contents V = String → Option V

module _ {V : Type 0} where
  unfoldable pub answer : Request V → Contents V → Contents V × Reply V
  answer (sets key none) m = (m, refused)
  answer (sets key (some v)) m = ((λ j. if key == j then some v else m j), done)
  answer (gets key) m = (m, found (m key))
  answer (adds_receiver key r) m = (m, done)
  answer (adds_all_topic_receiver r) m = (m, done)

  unfoldable pub answer_all : List (Request V) → Contents V → List (Reply V)
  unfolding answer
  answer_all [] m = []
  answer_all (q ∷ qs) m = (answer q m).1 ∷ answer_all qs (answer q m).0

module _ {V S : Type 0} (r : Receivers V S) where
  abbrev pub Shared : Type 0
  Shared = ValueStore V × S

  -- a refused call leaves the store as it was
  unfoldable pub after_set : Shared → Result Shared → Shared × Reply V
  after_set sh (ok sh') = (sh', done)
  after_set sh (raise e) = (sh, refused)

  unfoldable pub serve : Request V → Shared → Shared × Reply V
  unfolding set_value get_value add_receiver add_all_topic_receiver after_set
  serve (sets key v) sh = after_set sh (set_value r key v sh)
  serve (gets key) (st, s) = ((st, s), found (get_value key st))
  serve (adds_receiver key i) (st, s) = ((add_receiver key i st, s), done)
  serve (adds_all_topic_receiver i) (st, s) = ((add_all_topic_receiver i st, s), done)

  unfoldable pub serve_all : List (Request V) → Shared → List (Reply V)
  unfolding serve
  serve_all [] sh = []
  serve_all (q ∷ qs) sh = (serve q sh).1 ∷ serve_all qs (serve q sh).0

  -- the contents of the store
  abbrev pub contents : Shared → Contents V
  contents sh key = get_value key sh.0

  -- a value that is set succeeds
  serve-sets :
      (key : String) (v : V) (st : ValueStore V) (s : S)
      → serve (sets key (some v)) (st, s) ≡ (
        (
          (write_value key v st).0,
          deliver r (st.all_topic_receivers ++ receivers_of key st) key v s,
        ),
        done,
      )
  unfolding serve after_set
  serve-sets key v st s = ap (after_set (st, s)) (set_value_lem r key v st s)

  contents-serve :
      (q : Request V) (sh : Shared) → contents (serve q sh).0 ≡ (answer q (contents sh)).0
  unfolding serve answer after_set set_value add_all_topic_receiver get_value
  contents-serve (sets key none) (st, s) = refl
  contents-serve (sets key (some v)) (st, s) =
      ap (λ x. contents x.0) (serve-sets key v st s)
      ∙ fun_ext (λ j. get_value-write_value key j v st)
  contents-serve (gets key) (st, s) = refl
  contents-serve (adds_receiver key i) (st, s) = fun_ext (λ j. get_value-add_receiver key j i st)
  contents-serve (adds_all_topic_receiver i) (st, s) = refl

  reply-serve : (q : Request V) (sh : Shared) → (serve q sh).1 ≡ (answer q (contents sh)).1
  unfolding serve answer after_set set_value
  reply-serve (sets key none) (st, s) = refl
  reply-serve (sets key (some v)) (st, s) = ap (λ x. x.1) (serve-sets key v st s)
  reply-serve (gets key) (st, s) = refl
  reply-serve (adds_receiver key i) (st, s) = refl
  reply-serve (adds_all_topic_receiver i) (st, s) = refl

  -- Over receivers that change a state of their own only, and so do not call the store themselves,
  -- under any sequence of set_value, get_value, add_receiver and add_all_topic_receiver the store
  -- answers as a map from keys to values does: a key reads as the last value set for it, None is
  -- refused and changes nothing, and registrations change no answer.
  pub serve_all-refines :
      (qs : List (Request V)) (sh : Shared) → serve_all qs sh ≡ answer_all qs (contents sh)
  unfolding serve_all answer_all
  serve_all-refines [] sh = refl
  serve_all-refines (q ∷ qs) sh =
      ap₂ ◌∷◌ (reply-serve q sh)
        (serve_all-refines qs (serve q sh).0 ∙ ap (answer_all qs) (contents-serve q sh))
