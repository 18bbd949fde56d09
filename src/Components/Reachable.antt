-- ===== src/Components/Reachable.antt =====
-- What holds in every state that the manager's operations reach.
use flux_mcf.Prelude.{
  ℕ, suc, ◌≤◌, String, ◌≡◌, refl, sym, subst, Bool, false, ◌||◌, Option, none, some, List, [], ◌∷◌,
  ◌++◌, All, All-map, All-append, any_of, update, nat_beq, nat_beq_iff, nat_beq_refl, ◌==◌,
  string_eq, Bool-cases, inl, inr, if◌then◌else◌, arith,
}
use flux_mcf.Components.{
  CompState, registered, configured, running, mark, CompMapEntry, Component, Manager,
  config_name_or, is_registered, is_configured, is_running_state, configure, startup, shutdown,
  register_component,
}
use flux_mcf.Components.Lifecycle.{
  Fits, IsConsistent, configure-IsConsistent, startup-IsConsistent, shutdown-IsConsistent,
}
use flux_mcf.Components.Registry.{
  IsRegistry, IsAscending-mark, AreNamed-mark, Issued-mark, snoc-IsAscending, snoc_named,
  snoc_distinct,
}

-- One operation. A component is registered before it has a thread.
pub data Step (m m' : Manager) : Type 0 where
  registers :
      (default_config : String → String) (component : ℕ) (instance_name : String)
      (config_name : Option String)
      → (m.objects component).thread ≡ false
      → m' ≡ (register_component default_config component instance_name config_name m).0
      → Step m m'
  configures : m' ≡ configure m → Step m m'
  starts : (fuel : ℕ) → m' ≡ (startup fuel m).0 → Step m m'
  stops : (fuel : ℕ) → m' ≡ (shutdown fuel m).0 → Step m m'

pub data Reach (m : Manager) : Manager → Type 0 where
  here : Reach m m
  next : {m' m'' : Manager} → Reach m m' → Step m' m'' → Reach m m''

abbrev pub known : Manager → ℕ → String → Bool
known m component name =
    any_of (λ e. nat_beq e.component component) m.components
    || any_of (λ e. e.instance_name == name) m.components

-- the manager and the entry after a successful registration
module _ (default_config : String → String) (component : ℕ) (name : String)
    (config_name : Option String) (m : Manager) where
  abbrev new_entry : CompMapEntry
  new_entry = record {
    component = component;
    id = suc m.last_comp_id;
    instance_name = name;
    state = registered;
  }

  abbrev set_up : Component
  set_up = record (m.objects component) {
    config_name = config_name_or default_config name config_name;
    trace_generator = if m.tracing then some name else (m.objects component).trace_generator;
  }

  abbrev pub with_entry : Manager
  with_entry = record m {
    objects = update m.objects component set_up;
    components = m.components ++ new_entry ∷ [];
    last_comp_id = suc m.last_comp_id;
  }

  -- Registration fails, and changes nothing, exactly if the component or the instance name is
  -- registered already. Otherwise it gives the next id, adds an entry in state REGISTERED under it,
  -- and sets the configuration name and, if there is tracing, the trace generator of this
  -- component alone.
  register_component_lem :
      register_component default_config component name config_name m
      ≡ (if known m component name then (m, none) else (with_entry, some (suc m.last_comp_id)))
  unfolding register_component
  register_component_lem = ground arith

  kept-Fits :
      (es : List CompMapEntry)
      → any_of (λ e. nat_beq e.component component) es ≡ false
      → All (λ e. Fits e (m.objects e.component)) es
      → All (λ e. Fits e (update m.objects component set_up e.component)) es
  kept-Fits [] h fits = tt
  kept-Fits (e ∷ es) h fits =
      let same : m.objects e.component ≡ update m.objects component set_up e.component =
        ground (arith, nat_beq_iff e.component component, nat_beq_iff component e.component) in
      (subst (Fits e) same fits.0, kept-Fits es (ground arith) fits.1)

  with_entry-IsRegistry :
      IsRegistry m
      → (m.objects component).thread ≡ false
      → known m component name ≡ false
      → IsRegistry with_entry
  with_entry-IsRegistry h idle new =
      let no_component : any_of (λ e. nat_beq e.component component) m.components ≡ false =
        ground arith in
      let no_name : any_of (λ e. e.instance_name == name) m.components ≡ false = ground arith in
      let fresh = nat_beq_refl component in
      record {
        consistent = record {
          distinct = snoc_distinct m.components new_entry h.consistent.distinct no_component;
          fits =
              All-append (λ e. Fits e (update m.objects component set_up e.component)) m.components
                (new_entry ∷ []) (kept-Fits m.components no_component h.consistent.fits)
                (unfold is_running_state in (ground arith, refl), tt);
        };
        issued =
            All-append (λ e. e.id ≤ suc m.last_comp_id) m.components (new_entry ∷ [])
              (All-map _ _ (λ e k. omega arith) m.components h.issued) (omega arith, tt);
        ascending =
            snoc-IsAscending m.components new_entry h.ascending
              (All-map _ _ (λ e k. omega arith) m.components h.issued);
        named = snoc_named m.components new_entry h.named no_name;
      }

module _ (m m' : Manager) (h : IsRegistry m) (test : CompMapEntry → Bool) (st : CompState) where
  marked-IsRegistry :
      m'.components ≡ mark test st m.components
      → m'.last_comp_id ≡ m.last_comp_id
      → IsConsistent m'
      → IsRegistry m'
  marked-IsRegistry same_list same_id consistent = record {
    consistent = consistent;
    issued = rw (same_list, same_id) (Issued-mark test st m.last_comp_id m.components h.issued);
    ascending = rw same_list (IsAscending-mark test st m.components h.ascending);
    named = rw same_list (AreNamed-mark test st m.components h.named);
  }

Step-IsRegistry : {m m' : Manager} → Step m m' → IsRegistry m → IsRegistry m'
Step-IsRegistry {m} (registers d c n cfg idle e) h = subst IsRegistry (sym e) (
    rw (register_component_lem d c n cfg m) (elim (Bool-cases (known m c n)) [
      | inl old ↦ rw old h
      | inr new ↦ rw new (with_entry-IsRegistry d c n cfg m h idle new)
    ]))
Step-IsRegistry {m} (configures e) h = subst IsRegistry (sym e) (
    marked-IsRegistry m (configure m) h is_registered configured (unfold configure in refl)
      (unfold configure in refl) (configure-IsConsistent m h.consistent))
Step-IsRegistry {m} (starts fuel e) h = subst IsRegistry (sym e) (
    marked-IsRegistry m (startup fuel m).0 h is_configured running (unfold startup in refl)
      (unfold startup in refl) (startup-IsConsistent fuel m h.consistent))
Step-IsRegistry {m} (stops fuel e) h = subst IsRegistry (sym e) (
    marked-IsRegistry m (shutdown fuel m).0 h is_running_state configured (unfold shutdown in refl)
      (unfold shutdown in refl) (shutdown-IsConsistent fuel m h.consistent))

-- In every state that the manager's operations reach from a consistent one: no component, id or
-- instance name is registered twice, the ids ascend in the order of registration up to the last one
-- issued, and an entry is in state RUNNING exactly while its component has a thread, which has then
-- been told to run.
pub Reach-IsRegistry : {m m' : Manager} → IsRegistry m → Reach m m' → IsRegistry m'
Reach-IsRegistry h here = h
Reach-IsRegistry h (next r st) = Step-IsRegistry st (Reach-IsRegistry h r)
