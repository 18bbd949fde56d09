-- ===== src/Remote/Service/Arrivals.antt =====
-- What `value_received` does with a value.
use flux_mcf.Prelude.{
  ℕ, String, ◌≡◌, Bool, true, false, Option, none, some, List, ◌++◌, string_eq, if◌then◌else◌, ok,
}
use flux_mcf.Prelude.Dict.{lookup}
use flux_mcf.QueueDelivery.{queue_receivers}
use flux_mcf.Ports.{Shared, component_set_value, trace_set}
use flux_mcf.ValueStore.{receivers_of, write_value}
use flux_mcf.ValueStore.Delivery.{set_value_lem, deliver}
use flux_mcf.Remote.Service.{Service}

module _ {V : Type 0} where
  -- the shared state after a component set a value
  abbrev pub written : Option ℕ → String → V → List ℕ → Shared V → Shared V
  written g topic v ids sh = record {
    store = (write_value topic v sh.store).0;
    world =
        deliver queue_receivers (sh.store.all_topic_receivers ++ receivers_of topic sh.store) topic
          v (trace_set g topic ids (some v) sh.world);
  }

  pub component_set_value_lem :
      (g : Option ℕ) (topic : String) (v : V) (ids : List ℕ) (sh : Shared V)
      → component_set_value g topic (some v) ids sh ≡ ok (written g topic v ids sh)
  unfolding component_set_value
  component_set_value_lem g topic v ids sh =
      rw (set_value_lem queue_receivers topic v sh.store (trace_set g topic ids (some v) sh.world))

  -- the rule takes a value, under the source's conditions
  abbrev pub takes : Service V → String → Bool
  takes s topic =
      if s.initialized
      then elim (lookup topic s.receive_rules) [
        | none ↦ false
        | some rule ↦ elim rule.pending_value [ none ↦ true | some v ↦ false ]
      ]
      else false
