-- ===== src/Components.antt =====
-- `ComponentManager` and the control part of `Component` in
-- mcf_py/mcf_core/component_framework.py. Component objects are reached by references. What a
-- component's own `configure` and its thread do is not part of this model: `configured` counts the
-- calls of `configure`, and a thread that is joined ends.
pub mod Visit
pub mod Lifecycle
pub mod Registry
pub mod Reachable
use flux_mcf.Prelude.{
  ℕ, zero, suc, String, Bool, true, false, not, ◌&&◌, Option, none, some, List, [], ◌∷◌, ◌++◌,
  any_of, keep_if, update, nat_beq, ◌==◌, string_eq, if◌then◌else◌,
}

-- ComponentManager.CompState
pub data CompState : Type 0 where
  registered configured running : CompState

-- CompMapEntry
pub record CompMapEntry : Type 0 where
  pub component : ℕ
  pub id : ℕ
  pub instance_name : String
  pub state : CompState

-- the fields of a `Component` that its manager sets; `thread` says that `_thread` is not None
pub record Component : Type 0 where
  pub name : String
  pub instance_name : String
  pub config_name : String
  pub thread : Bool
  pub startup_request : Bool
  pub shutdown_request : Bool
  pub trace_generator : Option String
  pub configure_calls : ℕ

-- `last_comp_id` and the dictionary, whose keys are the ids of its entries
pub record Manager : Type 0 where
  pub objects : ℕ → Component
  pub components : List CompMapEntry
  pub last_comp_id : ℕ
  pub tracing : Bool

-- Component.__init__; `default_config name` is `name` with ".json" behind it
unfoldable pub new_component : (String → String) → String → Component
new_component default_config name = record {
  name = name;
  instance_name = name;
  config_name = default_config name;
  thread = false;
  startup_request = false;
  shutdown_request = false;
  trace_generator = none;
  configure_calls = 0;
}

unfoldable pub ctrl_configure : String → Component → Component
ctrl_configure instance_name c =
    if c.thread
    then c
    else record c { instance_name = instance_name; configure_calls = suc c.configure_calls }

unfoldable pub ctrl_start : Component → Component
ctrl_start c =
    if c.thread
    then c
    else record c { thread = true; startup_request = false; shutdown_request = false }

unfoldable pub ctrl_stop : Component → Component
ctrl_stop c = if c.thread then record c { shutdown_request = true; thread = false } else c

unfoldable pub ctrl_run : Component → Component
ctrl_run c = record c { startup_request = true }

-- the tests on `entry.state`
unfoldable pub is_registered : CompMapEntry → Bool
is_registered e = elim e.state [ registered ↦ true | _ ↦ false ]

unfoldable pub is_configured : CompMapEntry → Bool
is_configured e = elim e.state [ configured ↦ true | _ ↦ false ]

unfoldable pub is_running_state : CompMapEntry → Bool
is_running_state e = elim e.state [ running ↦ true | _ ↦ false ]

-- a loop over the entries that skips those which fail the test
unfoldable pub visit :
    (CompMapEntry → Bool)
    → (CompMapEntry → Component → Component)
    → List CompMapEntry
    → (ℕ → Component)
    → ℕ
    → Component
visit test f [] objects = objects
visit test f (e ∷ es) objects =
    visit test f es
      (if test e then update objects e.component (f e (objects e.component)) else objects)

-- `entry.state = state` in such a loop
unfoldable pub mark : (CompMapEntry → Bool) → CompState → List CompMapEntry → List CompMapEntry
mark test state [] = []
mark test state (e ∷ es) = (if test e then record e { state = state } else e) ∷ mark test state es

-- `while waiting`, on fuel: the loop passes while a listed component fails the test
unfoldable pub wait_until : ℕ → (Component → Bool) → List CompMapEntry → (ℕ → Component) → Bool
wait_until zero ready es objects = false
wait_until (suc fuel) ready es objects = elim (any_of (λ e. not (ready (objects e.component))) es) [
  | true ↦ wait_until fuel ready es objects
  | false ↦ true
]

unfoldable pub configure : Manager → Manager
unfolding visit mark is_registered ctrl_configure
configure m = record m {
  objects = visit is_registered (λ e. ctrl_configure e.instance_name) m.components m.objects;
  components = mark is_registered configured m.components;
}

-- The Boolean says whether the wait for the components ended within the fuel.
unfoldable pub startup : ℕ → Manager → Manager × Bool
unfolding visit mark is_configured ctrl_start ctrl_run wait_until
startup fuel m =
    let started = keep_if is_configured m.components in
    let objects = visit is_configured (λ _. ctrl_start) m.components m.objects in
    (
      record m {
        objects = visit is_configured (λ _. ctrl_run) m.components objects;
        components = mark is_configured running m.components;
      },
      wait_until fuel (λ c. c.thread) started objects,
    )

unfoldable pub shutdown : ℕ → Manager → Manager × Bool
unfolding visit mark is_running_state ctrl_stop wait_until
shutdown fuel m =
    let stopped = keep_if is_running_state m.components in
    let objects = visit is_running_state (λ _. ctrl_stop) m.components m.objects in
    (
      record m { objects = objects; components = mark is_running_state configured m.components },
      wait_until fuel (λ c. not c.thread) stopped objects,
    )

-- the default for the argument config_name, and the name of a trace generator
abbrev pub config_name_or : (String → String) → String → Option String → String
config_name_or default_config instance_name none = default_config instance_name
config_name_or default_config instance_name (some n) = n

-- `none` is the result -1.
unfoldable pub register_component :
    (String → String) → ℕ → String → Option String → Manager → Manager × Option ℕ
register_component default_config component instance_name config_name m =
    if any_of (λ e. nat_beq e.component component) m.components
    then (m, none)
    else if any_of (λ e. e.instance_name == instance_name) m.components
    then (m, none)
    else (let id = suc m.last_comp_id in
        let c = m.objects component in
        let c' : Component = record c {
          config_name = config_name_or default_config instance_name config_name;
          trace_generator = if m.tracing then some instance_name else c.trace_generator;
        } in
        let entry : CompMapEntry = record {
          component = component;
          id = id;
          instance_name = instance_name;
          state = registered;
        } in
        (
          record m {
            objects = update m.objects component c';
            components = m.components ++ entry ∷ [];
            last_comp_id = id;
          },
          some id,
        ))
