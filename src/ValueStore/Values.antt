-- ===== src/ValueStore/Values.antt =====
-- Reading what was written.
use flux_mcf.Prelude.{ℕ, String, ◌≡◌, some, ◌==◌, if◌then◌else◌, arith, string_eq}
use flux_mcf.Prelude.Dict.{lookup, insert, lookup-insert}
use flux_mcf.ValueStore.{
  ValueStore, entry_or_new, append_receiver, get_value, write_value, add_receiver,
}

module _ {V : Type 0} where
  pub get_value-write_value :
      (k j : String) (v : V) (st : ValueStore V)
      → get_value j (write_value k v st).0 ≡ (if k == j then some v else get_value j st)
  unfolding get_value write_value
  get_value-write_value k j v st =
      let e = entry_or_new (lookup k st.store) in
      ground (
        arith,
        lookup-insert k j e st.store,
        lookup-insert k j (record e { value = some v }) (insert k e st.store),
      )

  pub get_value-add_receiver :
      (k j : String) (r : ℕ) (st : ValueStore V)
      → get_value j (add_receiver k r st) ≡ get_value j st
  unfolding get_value add_receiver
  get_value-add_receiver k j r st =
      let e = entry_or_new (lookup k st.store) in
      ground (
        arith,
        string_eq.beq_iff k j,
        lookup-insert k j e st.store,
        lookup-insert k j (record e { receivers = append_receiver r e.receivers })
            (insert k e st.store),
      )
