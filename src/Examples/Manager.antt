-- ===== src/Examples/Manager.antt =====
-- The component manager with two components.
use flux_mcf.Prelude.{String, refl, true, none, []}
use flux_mcf.Components.{Manager, new_component, register_component, configure, startup, shutdown}
use flux_mcf.Components.Registry.{IsRegistry}
use flux_mcf.Components.Reachable.{
  Reach, here, next, registers, configures, starts, stops, Reach-IsRegistry,
}

abbrev with_json : String → String
with_json name = name

abbrev fresh : Manager
fresh = record {
  objects = λ c. new_component with_json "c";
  components = [];
  last_comp_id = 0;
  tracing = true;
}

abbrev one : Manager
one = (register_component with_json 7 "first" none fresh).0

abbrev two : Manager
two = (register_component with_json 8 "second" none one).0

abbrev started : Manager
started = (startup 1 (configure two)).0

fresh-IsRegistry : IsRegistry fresh
fresh-IsRegistry = record {
  consistent = record { distinct = tt; fits = tt };
  issued = tt;
  ascending = tt;
  named = tt;
}

fresh-Reach-one : Reach fresh one
unfolding new_component
fresh-Reach-one = next here (registers with_json 7 "first" none refl refl)

fresh-Reach-two : Reach fresh two
unfolding new_component register_component
fresh-Reach-two = next fresh-Reach-one (registers with_json 8 "second" none refl refl)

Reach-IsRegistry_example : IsRegistry (shutdown 1 started).0
Reach-IsRegistry_example =
    Reach-IsRegistry fresh-IsRegistry
      (next (next (next fresh-Reach-two (configures refl)) (starts 1 refl)) (stops 1 refl))
