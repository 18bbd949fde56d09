-- ===== src/Config/Merge.antt =====
-- A merge by paths: which dictionary decides the leaf at a path of keys.
use flux_mcf.Prelude.{
  String, ◌≡◌, ◌∙◌, refl, sym, ap, Bool-cases, inl, inr, Option, none, some, List, [], ◌∷◌, ◌==◌,
  string_eq, All, if◌then◌else◌, arith,
}
use flux_mcf.Config.{
  Json, leaf, dict, Fields, nil, field, get, put, updated, deep_update_dict, deep_merge_dicts,
  load_all, merge_all, read_config,
}

-- What a dictionary says of a path: nothing, or that there is no leaf (the path ends at a
-- dictionary or goes on below a leaf), or the leaf.
pub data Says (A : Type 0) : Type 0 where
  nothing hidden : Says A
  found : A → Says A

module _ {A : Type 0} where
  unfoldable mutual
    pub IsJson : Json A → Type 0
    IsJson (leaf a) = Unit
    IsJson (dict f) = IsFields f

    -- no key twice, at any depth
    pub IsFields : Fields A → Type 0
    IsFields nil = Unit
    IsFields (field k v f) = (get k f ≡ none) × IsJson v × IsFields f

  abbrev pub says_at : (List String → Json A → Says A) → List String → Option (Json A) → Says A
  says_at f ks none = nothing
  says_at f ks (some v) = f ks v

  pub says : List String → Json A → Says A
  says [] (leaf a) = found a
  says [] (dict f) = hidden
  says (k ∷ ks) (leaf a) = hidden
  says (k ∷ ks) (dict f) = elim (get k f) [ none ↦ nothing | some v ↦ says ks v ]

  abbrev pub leaf_of : Says A → Option A
  leaf_of (found a) = some a
  leaf_of hidden = none
  leaf_of nothing = none

  -- the leaf at a path
  pub leaf_at : List String → Fields A → Option A
  leaf_at ks f = leaf_of (says ks (dict f))

  -- what a dictionary says comes before what was there
  abbrev pub override : Says A → Option A → Option A
  override nothing old = old
  override hidden old = none
  override (found a) old = some a

  get-put :
      (k j : String) (v : Json A) (f : Fields A)
      → get j (put k v f) ≡ (if k == j then some v else get j f)
  unfolding get put
  get-put k j v nil = refl
  get-put k j v (field i w f) =
      ground (
        arith,
        string_eq.beq_iff k j,
        string_eq.beq_iff i k,
        string_eq.beq_iff i j,
        get-put k j v f,
      )

  abbrev overlay : Option (Json A) → Option (Json A) → Option (Json A)
  overlay none p = p
  overlay (some v) p = some (updated v p)

  get-deep_update :
      (j : String) (c p : Fields A)
      → IsFields c
      → get j (deep_update_dict c p) ≡ overlay (get j c) (get j p)
  unfolding deep_update_dict get IsJson
  get-deep_update j nil p h = refl
  get-deep_update j (field k v c) p h = ground (
    arith,
    get-deep_update j c (put k (updated v (get k p)) p) h.2,
    get-put k j (updated v (get k p)) p,
    string_eq.beq_iff k j,
    h.0,
  )

  -- what is known of an entry that may be missing
  abbrev IsEntry : Option (Json A) → Type 0
  IsEntry none = Unit
  IsEntry (some v) = IsJson v

  get-IsEntry : (k : String) (f : Fields A) → IsFields f → IsEntry (get k f)
  unfolding get IsJson
  get-IsEntry k nil h = tt
  get-IsEntry k (field j v f) h = elim (Bool-cases (j == k)) [
    | inl here ↦ rw here h.1
    | inr later ↦ rw later (get-IsEntry k f h.2)
  ]

  abbrev old_leaf : List String → Option (Json A) → Option A
  old_leaf ks none = none
  old_leaf ks (some v) = leaf_of (says ks v)

  -- an entry of the updated dictionary, before it is known whether the child has one
  leaf-overlay :
      (ks : List String) (c p : Option (Json A))
      → ((v : Json A)
          → IsJson v
          → leaf_of (says ks (updated v p)) ≡ override (says ks v) (old_leaf ks p))
      → IsEntry c
      → old_leaf ks (overlay c p)
        ≡ override (elim c [ none ↦ nothing | some v ↦ says ks v ]) (old_leaf ks p)
  leaf-overlay ks none p ih h = refl
  leaf-overlay ks (some v) p ih h = ih v h

  says_below :
      (k : String) (ks : List String) (f : Fields A)
      → leaf_of (says (k ∷ ks) (dict f)) ≡ old_leaf ks (get k f)
  unfolding says
  says_below k ks f = ground arith

  leaf-updated :
      (ks : List String) (v : Json A) (p : Option (Json A))
      → IsJson v
      → leaf_of (says ks (updated v p)) ≡ override (says ks v) (old_leaf ks p)
  unfolding updated says IsJson
  leaf-updated [] (leaf a) p h = refl
  leaf-updated [] (dict c) none h = refl
  leaf-updated [] (dict c) (some (leaf b)) h = refl
  leaf-updated [] (dict c) (some (dict p)) h = refl
  leaf-updated (k ∷ ks) (leaf a) p h = refl
  leaf-updated (k ∷ ks) (dict c) none h = ground arith
  leaf-updated (k ∷ ks) (dict c) (some (leaf b)) h = ground arith
  leaf-updated (k ∷ ks) (dict c) (some (dict p)) h =
      says_below k ks (deep_update_dict c p)
      ∙ ap (old_leaf ks) (get-deep_update k c p h)
      ∙ leaf-overlay ks (get k c) (get k p) (λ v. leaf-updated ks v (get k p)) (get-IsEntry k c h)
      ∙ ap (override (elim (get k c) [ none ↦ nothing | some v ↦ says ks v ]))
          (sym (says_below k ks p))

  -- What the last dictionary that says something of a path says decides it.
  pub decided : List String → Option A → List (Fields A) → Option A
  decided ks old [] = old
  decided ks old (c ∷ cs) = decided ks (override (says ks (dict c)) old) cs

  -- The leaf of a merged configuration at any path is the one of the last child that has a leaf
  -- there; a later child that has a dictionary there, or a leaf on the way, hides it; and where no
  -- child says anything it is the parent's.
  pub leaf-deep_merge :
      (ks : List String) (p : Fields A) (cs : List (Fields A))
      → All IsFields cs
      → leaf_at ks (deep_merge_dicts p cs) ≡ decided ks (leaf_at ks p) cs
  unfolding leaf_at deep_merge_dicts decided
  leaf-deep_merge ks p [] h = refl
  leaf-deep_merge ks p (c ∷ cs) h =
      leaf-deep_merge ks (deep_update_dict c p) cs h.1
      ∙ ap (λ (o : Option A). decided ks o cs)
          (unfold updated IsJson in leaf-updated ks (dict c) (some (dict p)) h.0)

  leaf-nothing : (o : Says A) → leaf_of o ≡ override o none
  leaf-nothing nothing = refl
  leaf-nothing hidden = refl
  leaf-nothing (found a) = refl

  leaf-merge_all :
      (ks : List String) (fs : List (Fields A))
      → All IsFields fs
      → leaf_at ks (merge_all fs) ≡ decided ks none fs
  unfolding merge_all leaf_at says decided get
  leaf-merge_all [] [] h = refl
  leaf-merge_all (k ∷ ks) [] h = refl
  leaf-merge_all ks (f ∷ fs) h =
      leaf-deep_merge ks f fs h.1
      ∙ ap (λ (o : Option A). decided ks o fs) (leaf-nothing (says ks (dict f)))

  -- The configuration that a component reads has at any path the leaf that the last of its existing
  -- files decides, by the order of the configuration directories, the first file being the base.
  pub leaf-read_config :
      (join : String → String → String) (load : String → Option (Fields A)) (name : String)
      (dirs ks : List String)
      → All IsFields (load_all join load name dirs)
      → leaf_at ks (read_config join load name dirs)
        ≡ decided ks none (load_all join load name dirs)
  unfolding read_config
  leaf-read_config join load name dirs ks h = leaf-merge_all ks (load_all join load name dirs) h
