-- ===== src/Prelude/Dict.antt =====
-- Python's `dict`: entries in the order of their first insertion; a write to a present key keeps
-- its place.
pub mod Entries
use mathlib.Core.Path.{◌≡◌, refl}
use mathlib.Core.Option.{Option, none, some}
use mathlib.Core.List.{List, [], ◌∷◌}
use native.Mathlib.Omega.{arith}
use flux_mcf.Prelude.Tests.{Eq, ◌==◌, if◌then◌else◌}

abbrev pub Dict {ℓ κ} : Type ℓ → Type κ → Type (ℓ ⊔ κ)
Dict K V = List (K × V)

module _ {ℓ κ} {K : Type ℓ} {V : Type κ} ⦃eq : Eq K⦄ where
  -- d.get(key)
  unfoldable pub lookup : K → Dict K V → Option V
  lookup key [] = none
  lookup key ((other, value) ∷ rest) = if other == key then some value else lookup key rest

  -- d[key] = value
  unfoldable pub insert : K → V → Dict K V → Dict K V
  insert key value [] = (key, value) ∷ []
  insert key value ((other, old) ∷ rest) =
      if other == key then (other, value) ∷ rest else (other, old) ∷ insert key value rest

  pub lookup-insert :
      (key sought : K) (value : V) (d : Dict K V)
      → lookup sought (insert key value d) ≡ (if key == sought then some value else lookup sought d)
  unfolding insert lookup
  lookup-insert key sought value [] = refl
  lookup-insert key sought value ((other, old) ∷ rest) = ground (
    arith,
    eq.beq_iff other key,
    eq.beq_iff other sought,
    eq.beq_iff key sought,
    lookup-insert key sought value rest,
  )
