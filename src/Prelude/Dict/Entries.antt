-- ===== src/Prelude/Dict/Entries.antt =====
-- Tests of the entries of a dictionary.
use mathlib.Core.Path.{◌≡◌, refl, ap, ◌∙◌}
use mathlib.Core.Logic.{inl, inr}
use mathlib.Core.Bool.{Bool, true, false, ◌&&◌, ◌||◌}
use mathlib.Core.Option.{Option, none, some}
use mathlib.Core.List.{[], ◌∷◌}
use native.Mathlib.Omega.{arith}
use flux_mcf.Prelude.Tests.{Eq, ◌==◌, Bool-cases}
use flux_mcf.Prelude.Dict.{Dict, lookup, insert, lookup-insert}

module _ {ℓ κ} {K : Type ℓ} {V : Type κ} where
  abbrev pub any_entry : (K → V → Bool) → Dict K V → Bool
  any_entry f [] = false
  any_entry f ((k, v) ∷ d) = f k v || any_entry f d

  abbrev pub AllEntries {ι} : (K → V → Type ι) → Dict K V → Type ι
  AllEntries P [] = Unit
  AllEntries P ((k, v) ∷ d) = P k v × AllEntries P d

replaced : (a b c x fv fw : Bool) → fv ≡ (fw || x) → a ≡ fv → b ≡ fw → (a || c) ≡ ((b || c) || x)
replaced a b c x fv fw h p q = ground arith

-- the test of what is at a key
abbrev pub at_key {κ} : {V : Type κ} → (V → Bool) → Option V → Bool
at_key g none = false
at_key g (some v) = g v

module _ {ℓ κ} {K : Type ℓ} {V : Type κ} ⦃eq : Eq K⦄ where
  pub any_entry-insert :
      (f : K → V → Bool) (k : K) (v : V) (d : Dict K V) (x : Bool)
      → f k v ≡ (at_key (f k) (lookup k d) || x)
      → any_entry f (insert k v d) ≡ (any_entry f d || x)
  unfolding insert lookup
  any_entry-insert f k v [] x h = ground arith
  any_entry-insert f k v ((j, w) ∷ d) x h = elim (Bool-cases (j == k)) [
    | inl same ↦
        let e : j ≡ k = (eq.beq_iff j k).0 same in
        rw same (
          replaced (f j v) (f j w) (any_entry f d) x (f k v) (f k w) (ground arith)
            (ap (λ l. f l v) e) (ap (λ l. f l w) e))
    | inr differs ↦ ground (arith, any_entry-insert f k v d x)
  ]

  pub any_entry-lookup :
      (f : K → V → Bool) (k : K) (v : V) (d : Dict K V)
      → lookup k d ≡ some v
      → f k v ≡ true
      → any_entry f d ≡ true
  unfolding lookup
  any_entry-lookup f k v [] h t = absurd (ground arith)
  any_entry-lookup f k v ((j, w) ∷ d) h t = ground (arith, eq.beq_iff j k, any_entry-lookup f k v d)

  -- no key twice
  abbrev pub IsUnique : Dict K V → Type κ
  IsUnique [] = Unit
  IsUnique ((k, v) ∷ d) = (lookup k d ≡ none) × IsUnique d

  -- what there is at one key
  pub any_entry_unique :
      (g : V → Bool) (k : K) (d : Dict K V)
      → IsUnique d
      → any_entry (λ j v. j == k && g v) d ≡ at_key g (lookup k d)
  unfolding lookup
  any_entry_unique g k [] u = refl
  any_entry_unique g k ((j, v) ∷ d) (absent, u) = elim (Bool-cases (j == k)) [
    | inl same ↦
        let e : j ≡ k = (eq.beq_iff j k).0 same in
        let gone : lookup k d ≡ none = rw (← e) absent in ground (arith, any_entry_unique g k d u)
    | inr differs ↦ ground (arith, any_entry_unique g k d u)
  ]

  pub insert-IsUnique : (k : K) (v : V) (d : Dict K V) → IsUnique d → IsUnique (insert k v d)
  unfolding insert lookup
  insert-IsUnique k v [] u = (refl, tt)
  insert-IsUnique k v ((j, w) ∷ d) (absent, u) = elim (Bool-cases (j == k)) [
    | inl same ↦ rw same (absent, u)
    | inr differs ↦ rw differs (
      lookup-insert k j v d ∙ ground (arith, eq.beq_iff j k, eq.beq_iff k j),
      insert-IsUnique k v d u,
    )
  ]

  pub AllEntries-insert {ι} :
      (P : K → V → Type ι) (k : K) (v : V) (d : Dict K V)
      → P k v
      → AllEntries P d
      → AllEntries P (insert k v d)
  unfolding insert
  AllEntries-insert P k v [] p all = (p, tt)
  AllEntries-insert P k v ((j, w) ∷ d) p (here, later) = elim (Bool-cases (j == k)) [
    | inl same ↦ let e : j ≡ k = (eq.beq_iff j k).0 same in rw same ((rw e p), later)
    | inr differs ↦ rw differs (here, AllEntries-insert P k v d p later)
  ]

  pub AllEntries-lookup {ι} :
      (P : K → V → Type ι) (k : K) (v : V) (d : Dict K V)
      → AllEntries P d
      → lookup k d ≡ some v
      → P k v
  unfolding lookup
  AllEntries-lookup P k v [] all h = absurd (ground arith)
  AllEntries-lookup P k v ((j, w) ∷ d) (here, later) h = elim (Bool-cases (j == k)) [
    | inl same ↦
        let e : j ≡ k = (eq.beq_iff j k).0 same in
        let at : w ≡ v = ground arith in rw (← e, ← at) here
    | inr differs ↦ AllEntries-lookup P k v d later (ground arith)
  ]
