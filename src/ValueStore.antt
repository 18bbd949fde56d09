-- ===== src/ValueStore.antt =====
-- `ValueStore` of mcf_py/mcf_core/value_store.py, over an interface for its receivers. The locks
-- of the store and of an entry are held together, so the part of an operation under them is one
-- step. The receivers are called after the locks are released.
pub mod Values
pub mod Registration
pub mod Delivery
pub mod Refinement
use flux_mcf.Prelude.{
  ℕ, String, Bool, true, false, not, ◌||◌, Option, none, some, List, [], ◌∷◌, ◌++◌, map, any_of,
  keep_if, nat_beq, string_eq, if◌then◌else◌, Result, ok, raise, runtime_error,
}
use flux_mcf.Prelude.Dict.{Dict, lookup, insert}
use flux_mcf.Receivers.{Receivers}

-- _MapEntry
pub record MapEntry (V : Type 0) : Type 0 where
  pub value : Option V
  pub receivers : List ℕ

-- __init__
pub record ValueStore (V : Type 0) : Type 0 where
  pub store : Dict String (MapEntry V)
  pub all_topic_receivers : List ℕ

-- the loop that skips a receiver which is there already
unfoldable pub append_receiver : ℕ → List ℕ → List ℕ
append_receiver r rs = if any_of (λ i. nat_beq i r) rs then rs else rs ++ r ∷ []

module _ {V : Type 0} where
  abbrev pub new_entry : MapEntry V
  new_entry = record { value = none; receivers = [] }

  abbrev pub new_store : ValueStore V
  new_store = record { store = []; all_topic_receivers = [] }

  -- the entry of a key, or a new one
  abbrev pub entry_or_new : Option (MapEntry V) → MapEntry V
  entry_or_new none = new_entry
  entry_or_new (some e) = e

  -- the receivers of a key
  abbrev pub receivers_of : String → ValueStore V → List ℕ
  receivers_of key st = (entry_or_new (lookup key st.store)).receivers

  -- _create_key_if_absent, and the entry that is then there
  unfoldable pub create_key_if_absent : String → ValueStore V → ValueStore V × MapEntry V
  create_key_if_absent key st =
      let e = entry_or_new (lookup key st.store) in (record st { store = insert key e st.store }, e)

  unfoldable pub add_receiver : String → ℕ → ValueStore V → ValueStore V
  unfolding create_key_if_absent append_receiver
  add_receiver key r st =
      let (st', e) = create_key_if_absent key st in
      record st' {
        store = insert key (record e { receivers = append_receiver r e.receivers }) st'.store;
      }

  unfoldable pub add_all_topic_receiver : ℕ → ValueStore V → ValueStore V
  unfolding append_receiver
  add_all_topic_receiver r st = record st {
    all_topic_receivers = append_receiver r st.all_topic_receivers;
  }

  unfoldable pub get_value : String → ValueStore V → Option V
  get_value key st = elim (lookup key st.store) [ none ↦ none | some e ↦ e.value ]

  unfoldable pub get_keys : ValueStore V → List String
  get_keys st = map (λ (k, e). k) st.store

  -- The part of set_value under the locks: the store with the value, and the receivers to notify.
  unfoldable pub write_value : String → V → ValueStore V → ValueStore V × (List ℕ × List ℕ)
  unfolding create_key_if_absent
  write_value key value st =
      let (st', e) = create_key_if_absent key st in
      (
        record st' { store = insert key (record e { value = some value }) st'.store },
        (st'.all_topic_receivers, e.receivers),
      )

module _ {V S : Type 0} (r : Receivers V S) where
  -- the loop of _notify_receivers_and_cleanup: every receiver is called, and `has_expired`
  unfoldable pub call_receivers : List ℕ → String → V → S → S × Bool
  call_receivers [] key value s = (s, false)
  call_receivers (i ∷ is) key value s =
      let (s', expired) = r.receive i key value s in
      let (s'', has_expired) = call_receivers is key value s' in (s'', expired || has_expired)

  -- _notify_receivers_and_cleanup, with the updated list of receivers
  unfoldable pub notify_receivers_and_cleanup : List ℕ → String → V → S → S × List ℕ
  unfolding call_receivers
  notify_receivers_and_cleanup receivers key value s =
      let (s', has_expired) = call_receivers receivers key value s in
      (s', if has_expired then keep_if (λ i. not (r.expired i s')) receivers else receivers)

  -- set_value. The lists that the two calls return are dropped.
  unfoldable pub set_value : String → Option V → ValueStore V × S → Result (ValueStore V × S)
  unfolding notify_receivers_and_cleanup write_value
  set_value key none (st, s) = raise runtime_error
  set_value key (some value) (st, s) =
      let (st', (all_topics, on_topic)) = write_value key value st in
      let (s', _) = notify_receivers_and_cleanup all_topics key value s in
      let (s'', _) = notify_receivers_and_cleanup on_topic key value s' in ok (st', s'')
