-- ===== src/Components/Registry.antt =====
-- The entries of the manager: ids, instance names and components are each without repetition.
use flux_mcf.Prelude.{
  ℕ, ◌≤◌, ◌<◌, String, ◌≡◌, subst, Bool, false, List, [], ◌∷◌, ◌++◌, All, All-append, any_of,
  nat_beq, nat_beq_iff, ◌==◌, string_eq, if◌then◌else◌, arith,
}
use flux_mcf.Components.{CompState, CompMapEntry, Manager, mark}
use flux_mcf.Components.Visit.{AreDistinct, Absent}
use flux_mcf.Components.Lifecycle.{IsConsistent}

-- ids in the order of registration, each larger than those before
abbrev pub IsAscending : List CompMapEntry → Type 0
IsAscending [] = Unit
IsAscending (e ∷ es) = All (λ d. e.id < d.id) es × IsAscending es

abbrev pub Unnamed : String → List CompMapEntry → Type 0
Unnamed n [] = Unit
Unnamed n (e ∷ es) = ((e.instance_name == n) ≡ false) × Unnamed n es

abbrev pub AreNamed : List CompMapEntry → Type 0
AreNamed [] = Unit
AreNamed (e ∷ es) = Unnamed e.instance_name es × AreNamed es

pub record IsRegistry (m : Manager) : Type 0 where
  pub consistent : IsConsistent m
  pub issued : All (λ e. e.id ≤ m.last_comp_id) m.components
  pub ascending : IsAscending m.components
  pub named : AreNamed m.components

module _ (test : CompMapEntry → Bool) (st : CompState) where
  Below-mark :
      (n : ℕ) (es : List CompMapEntry)
      → All (λ d. n < d.id) es
      → All (λ d. n < d.id) (mark test st es)
  unfolding mark
  Below-mark n [] h = tt
  Below-mark n (e ∷ es) h = (ground (arith, h.0), Below-mark n es h.1)

  pub Issued-mark :
      (n : ℕ) (es : List CompMapEntry)
      → All (λ d. d.id ≤ n) es
      → All (λ d. d.id ≤ n) (mark test st es)
  unfolding mark
  Issued-mark n [] h = tt
  Issued-mark n (e ∷ es) h = (ground (arith, h.0), Issued-mark n es h.1)

  Unnamed-mark : (n : String) (es : List CompMapEntry) → Unnamed n es → Unnamed n (mark test st es)
  unfolding mark
  Unnamed-mark n [] h = tt
  Unnamed-mark n (e ∷ es) h = (ground (arith, h.0), Unnamed-mark n es h.1)

  same_id : (e : CompMapEntry) → e.id ≡ (if test e then record e { state = st } else e).id
  same_id e = ground arith

  same_name :
      (e : CompMapEntry)
      → e.instance_name ≡ (if test e then record e { state = st } else e).instance_name
  same_name e = ground arith

  pub IsAscending-mark : (es : List CompMapEntry) → IsAscending es → IsAscending (mark test st es)
  unfolding mark
  IsAscending-mark [] h = tt
  IsAscending-mark (e ∷ es) h = (
    subst (λ (n : ℕ). All (λ d. n < d.id) (mark test st es)) (same_id e) (Below-mark e.id es h.0),
    IsAscending-mark es h.1,
  )

  pub AreNamed-mark : (es : List CompMapEntry) → AreNamed es → AreNamed (mark test st es)
  unfolding mark
  AreNamed-mark [] h = tt
  AreNamed-mark (e ∷ es) h = (
    subst (λ (n : String). Unnamed n (mark test st es)) (same_name e)
        (Unnamed-mark e.instance_name es h.0),
    AreNamed-mark es h.1,
  )

-- `keeps` for each way in which an entry that is new at the end fits in
pub snoc-IsAscending :
    (es : List CompMapEntry) (x : CompMapEntry)
    → IsAscending es
    → All (λ e. e.id < x.id) es
    → IsAscending (es ++ x ∷ [])
snoc-IsAscending [] x h below = (tt, tt)
snoc-IsAscending (e ∷ es) x h below =
    (All-append (λ d. e.id < d.id) es (x ∷ []) h.0 (below.0, tt), snoc-IsAscending es x h.1 below.1)

pub snoc-Unnamed :
    (n : String) (es : List CompMapEntry) (x : CompMapEntry)
    → Unnamed n es
    → (x.instance_name == n) ≡ false
    → Unnamed n (es ++ x ∷ [])
snoc-Unnamed n [] x h ne = (ne, tt)
snoc-Unnamed n (e ∷ es) x h ne = (h.0, snoc-Unnamed n es x h.1 ne)

pub snoc_named :
    (es : List CompMapEntry) (x : CompMapEntry)
    → AreNamed es
    → any_of (λ e. e.instance_name == x.instance_name) es ≡ false
    → AreNamed (es ++ x ∷ [])
snoc_named [] x h ne = (tt, tt)
snoc_named (e ∷ es) x h ne = (
  snoc-Unnamed e.instance_name es x h.0 (
      ground (
        arith,
        string_eq.beq_iff e.instance_name x.instance_name,
        string_eq.beq_iff x.instance_name e.instance_name,
      )),
  snoc_named es x h.1 (ground arith),
)

pub snoc-Absent :
    (c : ℕ) (es : List CompMapEntry) (x : CompMapEntry)
    → Absent c es
    → nat_beq x.component c ≡ false
    → Absent c (es ++ x ∷ [])
snoc-Absent c [] x h ne = (ne, tt)
snoc-Absent c (e ∷ es) x h ne = (h.0, snoc-Absent c es x h.1 ne)

pub snoc_distinct :
    (es : List CompMapEntry) (x : CompMapEntry)
    → AreDistinct es
    → any_of (λ e. nat_beq e.component x.component) es ≡ false
    → AreDistinct (es ++ x ∷ [])
snoc_distinct [] x h ne = (tt, tt)
snoc_distinct (e ∷ es) x h ne = (
  snoc-Absent e.component es x h.0
      (ground (arith, nat_beq_iff e.component x.component, nat_beq_iff x.component e.component)),
  snoc_distinct es x h.1 (ground arith),
)
