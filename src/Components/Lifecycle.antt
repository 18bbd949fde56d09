-- ===== src/Components/Lifecycle.antt =====
-- What the manager's operations keep: a component has a thread, and has been told to run, exactly
-- while its entry is in state RUNNING.
use flux_mcf.Prelude.{
  ℕ, suc, ◌≡◌, refl, sym, subst, Bool, true, false, not, ◌&&◌, List, [], ◌∷◌, All, All-map, any_of,
  keep_if, string_eq, if◌then◌else◌, arith,
}
use flux_mcf.Components.{
  CompState, configured, running, CompMapEntry, Component, Manager, ctrl_configure, ctrl_start,
  ctrl_stop, ctrl_run, is_registered, is_configured, is_running_state, visit, mark, wait_until,
  configure, startup, shutdown,
}
use flux_mcf.Components.Visit.{AreDistinct, Absent, visit-All, visited}

-- the entry and its component fit together
abbrev pub Fits : CompMapEntry → Component → Type 0
Fits e c = (is_running_state e ≡ c.thread) × ((is_running_state e && not c.startup_request) ≡ false)

pub record IsConsistent (m : Manager) : Type 0 where
  pub distinct : AreDistinct m.components
  pub fits : All (λ e. Fits e (m.objects e.component)) m.components

abbrev mark_one : (CompMapEntry → Bool) → CompState → CompMapEntry → CompMapEntry
mark_one test state e = if test e then record e { state = state } else e

Absent-mark :
    (test : CompMapEntry → Bool) (st : CompState) (c : ℕ) (es : List CompMapEntry)
    → Absent c es
    → Absent c (mark test st es)
unfolding mark
Absent-mark test st c [] h = tt
Absent-mark test st c (e ∷ es) h = (ground (arith, h.0), Absent-mark test st c es h.1)

AreDistinct-mark :
    (test : CompMapEntry → Bool) (st : CompState) (es : List CompMapEntry)
    → AreDistinct es
    → AreDistinct (mark test st es)
unfolding mark
AreDistinct-mark test st [] h = tt
AreDistinct-mark test st (e ∷ es) h = (
  subst (λ (c : ℕ). Absent c (mark test st es))
      (let same : e.component ≡ (mark_one test st e).component = ground arith in same)
      (Absent-mark test st e.component es h.0),
  AreDistinct-mark test st es h.1,
)

All-mark :
    (test : CompMapEntry → Bool) (st : CompState) (Q : CompMapEntry → Type 0)
    (es : List CompMapEntry)
    → All (λ e. Q (mark_one test st e)) es
    → All Q (mark test st es)
unfolding mark
All-mark test st Q [] h = tt
All-mark test st Q (e ∷ es) h = (h.0, All-mark test st Q es h.1)

-- the wait ends at its first pass if every listed component is ready
no_wait :
    (fuel : ℕ) (test : CompMapEntry → Bool) (ready : Component → Bool) (es : List CompMapEntry)
    (objects : ℕ → Component)
    → All (λ e. test e ≡ true → ready (objects e.component) ≡ true) es
    → wait_until (suc fuel) ready (keep_if test es) objects ≡ true
unfolding wait_until
no_wait fuel test ready es objects h = rw (none_unready es h, wait_until)
  where
    none_unready :
        (l : List CompMapEntry)
        → All (λ e. test e ≡ true → ready (objects e.component) ≡ true) l
        → any_of (λ e. not (ready (objects e.component))) (keep_if test l) ≡ false
    none_unready [] k = refl
    none_unready (e ∷ l) k = ground (arith, k.0, none_unready l k.1)

-- The wait of `startup` for the threads ends at its first pass.
startup_waits :
    (fuel : ℕ) (m : Manager) → AreDistinct m.components → (startup (suc fuel) m).1 ≡ true
unfolding startup
startup_waits fuel m distinct =
    no_wait fuel is_configured (λ c. c.thread) m.components _
      (visit-All is_configured (λ _. ctrl_start) (λ e c. is_configured e ≡ true → c.thread ≡ true)
        m.components m.objects distinct (each m.components))
  where
    each :
        (l : List CompMapEntry)
        → All
            (λ e.
              is_configured e ≡ true
              → (visited is_configured (λ _. ctrl_start) m.objects e).thread ≡ true)
            l
    each [] = tt
    each (e ∷ l) = (λ h. ground arith, each l)

-- The wait of `shutdown` for the threads ends at its first pass.
shutdown_waits :
    (fuel : ℕ) (m : Manager) → AreDistinct m.components → (shutdown (suc fuel) m).1 ≡ true
unfolding shutdown
shutdown_waits fuel m distinct =
    no_wait fuel is_running_state (λ c. not c.thread) m.components _
      (visit-All is_running_state (λ _. ctrl_stop)
        (λ e c. is_running_state e ≡ true → not c.thread ≡ true) m.components m.objects distinct
        (each m.components))
  where
    each :
        (l : List CompMapEntry)
        → All
            (λ e.
              is_running_state e ≡ true
              → not (visited is_running_state (λ _. ctrl_stop) m.objects e).thread ≡ true)
            l
    each [] = tt
    each (e ∷ l) = (λ h. ground arith, each l)

-- If no component is registered twice, the waits of `startup` and `shutdown` for the threads end at
-- their first pass.
waits_end :
    (fuel : ℕ) (m : Manager)
    → AreDistinct m.components
    → ((startup (suc fuel) m).1 ≡ true) × ((shutdown (suc fuel) m).1 ≡ true)
waits_end fuel m distinct = (startup_waits fuel m distinct, shutdown_waits fuel m distinct)

-- One loop of an operation over consistent entries.
module _ (test : CompMapEntry → Bool) (st : CompState)
    (f : CompMapEntry → Component → Component) where
  Fits-visit :
      (es : List CompMapEntry) (objects : ℕ → Component)
      → ((e : CompMapEntry) (c : Component)
          → Fits e c
          → Fits (mark_one test st e) (if test e then f e c else c))
      → AreDistinct es
      → All (λ e. Fits e (objects e.component)) es
      → All (λ e. Fits (mark_one test st e) (visit test f es objects e.component)) es
  Fits-visit es objects keeps distinct h =
      visit-All test f (λ e. Fits (mark_one test st e)) es objects distinct
        (All-map _ _ (λ e. keeps e (objects e.component)) es h)

same_component :
    (test : CompMapEntry → Bool) (st : CompState) (e : CompMapEntry)
    → (mark_one test st e).component ≡ e.component
same_component test st e = ground arith

marked :
    (test : CompMapEntry → Bool) (st : CompState) (es : List CompMapEntry) (objects : ℕ → Component)
    → All (λ e. Fits (mark_one test st e) (objects e.component)) es
    → All (λ e. Fits e (objects e.component)) (mark test st es)
marked test st es objects h =
    All-mark test st (λ e. Fits e (objects e.component)) es
      (All-map _ _
        (λ e.
          subst (λ (c : ℕ). Fits (mark_one test st e) (objects c)) (sym (same_component test st e)))
        es h)

pub configure-IsConsistent : (m : Manager) → IsConsistent m → IsConsistent (configure m)
unfolding configure is_running_state
configure-IsConsistent m h = record {
  distinct = AreDistinct-mark is_registered configured m.components h.distinct;
  fits = marked is_registered configured m.components (configure m).objects (
      Fits-visit is_registered configured (λ e. ctrl_configure e.instance_name) m.components
        m.objects (λ e c k. (ground (arith, k.0), ground (arith, k.1))) h.distinct h.fits);
}

pub shutdown-IsConsistent :
    (fuel : ℕ) (m : Manager) → IsConsistent m → IsConsistent (shutdown fuel m).0
unfolding shutdown
shutdown-IsConsistent fuel m h = record {
  distinct = AreDistinct-mark is_running_state configured m.components h.distinct;
  fits = marked is_running_state configured m.components (shutdown fuel m).0.objects (
      Fits-visit is_running_state configured (λ _. ctrl_stop) m.components m.objects
        (λ e c k. (ground (arith, k.0), ground (arith, k.1))) h.distinct h.fits);
}

pub startup-IsConsistent :
    (fuel : ℕ) (m : Manager) → IsConsistent m → IsConsistent (startup fuel m).0
unfolding startup is_running_state
startup-IsConsistent fuel m h = record {
  distinct = AreDistinct-mark is_configured running m.components h.distinct;
  fits = marked is_configured running m.components (startup fuel m).0.objects (
      visit-All is_configured (λ _. ctrl_run) (λ e. Fits (mark_one is_configured running e))
        m.components (visit is_configured (λ _. ctrl_start) m.components m.objects) h.distinct
        (visit-All is_configured (λ _. ctrl_start)
          (λ e c.
            Fits (mark_one is_configured running e) (if is_configured e then ctrl_run c else c))
          m.components m.objects h.distinct
          (All-map _ _ (λ e k. (ground (arith, k.0), ground (arith, k.1))) m.components h.fits)));
}
