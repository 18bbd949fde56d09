-- ===== src/Components/Visit.antt =====
-- A loop over entries with different components changes each component by its own entry alone.
use flux_mcf.Prelude.{
  ℕ, ◌≡◌, ◌∙◌, refl, sym, ap, subst, Bool, false, List, [], ◌∷◌, All, update, nat_beq, nat_beq_iff,
  nat_beq_refl, if◌then◌else◌, arith,
}
use flux_mcf.Components.{CompMapEntry, Component, visit}

-- no entry of the list has the component
abbrev pub Absent : ℕ → List CompMapEntry → Type 0
Absent c [] = Unit
Absent c (e ∷ es) = (nat_beq e.component c ≡ false) × Absent c es

abbrev pub AreDistinct : List CompMapEntry → Type 0
AreDistinct [] = Unit
AreDistinct (e ∷ es) = Absent e.component es × AreDistinct es

module _ (test : CompMapEntry → Bool) (f : CompMapEntry → Component → Component) where
  pub visit-Absent :
      (es : List CompMapEntry) (objects : ℕ → Component) (c : ℕ)
      → Absent c es
      → visit test f es objects c ≡ objects c
  unfolding visit
  visit-Absent [] objects c h = refl
  visit-Absent (e ∷ es) objects c h = visit-Absent es _ c h.1 ∙ ground (arith, h.0)

  -- what the loop makes of the component of an entry
  abbrev pub visited : (ℕ → Component) → CompMapEntry → Component
  visited objects e = if test e then f e (objects e.component) else objects e.component

  -- the same of objects that differ in an absent component only
  agree :
      (P : CompMapEntry → Component → Type 0) (es : List CompMapEntry)
      (objects objects' : ℕ → Component) (c : ℕ)
      → ((j : ℕ) → nat_beq j c ≡ false → objects' j ≡ objects j)
      → Absent c es
      → All (λ e. P e (visited objects e)) es
      → All (λ e. P e (visited objects' e)) es
  agree P [] objects objects' c same absent h = tt
  agree P (e ∷ es) objects objects' c same absent h =
      let at_e : visited objects e ≡ visited objects' e =
        ap (λ (x : Component). if test e then f e x else x) (sym (same e.component absent.0)) in
      (subst (P e) at_e h.0, agree P es objects objects' c same absent.1 h.1)

  -- the visit of the others changes nothing that `P` says of the first
  pub visit-All :
      (P : CompMapEntry → Component → Type 0) (es : List CompMapEntry) (objects : ℕ → Component)
      → AreDistinct es
      → All (λ e. P e (visited objects e)) es
      → All (λ e. P e (visit test f es objects e.component)) es
  unfolding visit
  visit-All P [] objects distinct h = tt
  visit-All P (e ∷ es) objects distinct h =
      let objects' =
        if test e then update objects e.component (f e (objects e.component)) else objects in
      let here : objects' e.component ≡ visited objects e =
        ground (arith, nat_beq_refl e.component) in
      (
        subst (P e) (sym (visit-Absent es objects' e.component distinct.0 ∙ here)) h.0,
        visit-All P es objects' distinct.1 (
            agree P es objects objects' e.component
              (λ j ne. ground (arith, nat_beq_iff e.component j)) distinct.0 h.1),
      )
