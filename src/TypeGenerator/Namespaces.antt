-- ===== src/TypeGenerator/Namespaces.antt =====
-- `fill_attribute_namespaces` of mcf_tools/types_generator/type_generator/parse_definitions.py, for
-- the type of one attribute.
use flux_mcf.Prelude.{
  ◌≤◌, ◌≡◌, ◌⊎◌, inl, inr, refl, ap, ap₂, Bool, true, false, none, some, List, [], ◌∷◌, ◌++◌,
  length, arith, Bool-cases,
}
use flux_mcf.Prelude.Dict.{lookup}
use flux_mcf.Prelude.Text.{Text, text_eq}
use flux_mcf.TypeGenerator.TypeExpr.{
  TypeExpr, TypeExprs, scalar, template, nil, cons, SystemTypes, last_part,
}

-- `name in system_types["SystemTypes"]`
unfoldable pub is_system_type : SystemTypes → Text → Bool
is_system_type system name = elim (lookup name system) [ none ↦ false | some entry ↦ true ]

-- the names of the templates
unfoldable mutual
  pub template_names : TypeExpr → List (List Text)
  template_names (scalar name) = []
  template_names (template name args) = name ∷ all_template_names args

  pub all_template_names : TypeExprs → List (List Text)
  all_template_names nil = []
  all_template_names (cons t ts) = template_names t ++ all_template_names ts

module _ (system : SystemTypes) (project_namespace group_namespace : Text) where
  unfoldable pub with_namespaces : List Text → List Text
  with_namespaces (part ∷ []) = project_namespace ∷ group_namespace ∷ part ∷ []
  with_namespaces (part ∷ next ∷ []) = project_namespace ∷ part ∷ next ∷ []
  with_namespaces name = name

  unfoldable pub full_name : List Text → List Text
  unfolding is_system_type last_part with_namespaces
  full_name name = elim (is_system_type system (last_part name)) [
    | true ↦ name
    | false ↦ with_namespaces name
  ]

  unfoldable mutual
    unfolding full_name

    pub fill_namespaces : TypeExpr → TypeExpr
    fill_namespaces (scalar name) = scalar (full_name name)
    fill_namespaces (template name args) = template name (fill_all args)

    pub fill_all : TypeExprs → TypeExprs
    fill_all nil = nil
    fill_all (cons t ts) = cons (fill_namespaces t) (fill_all ts)

  -- a name that says where its type belongs
  abbrev pub IsFull : List Text → Type 0
  IsFull name = (is_system_type system (last_part name) ≡ true) ⊎ (3 ≤ length name) ⊎ (name ≡ [])

  -- the names that are not those of templates
  unfoldable mutual
    pub AreFull : TypeExpr → Type 0
    AreFull (scalar name) = IsFull name
    AreFull (template name args) = AllFull args

    pub AllFull : TypeExprs → Type 0
    AllFull nil = Unit
    AllFull (cons t ts) = AreFull t × AllFull ts

  IsFull-with_namespaces : (name : List Text) → IsFull (with_namespaces name)
  unfolding with_namespaces
  IsFull-with_namespaces [] = inr (inr refl)
  IsFull-with_namespaces (a ∷ []) = inr (inl (omega arith))
  IsFull-with_namespaces (a ∷ b ∷ []) = inr (inl (omega arith))
  IsFull-with_namespaces (a ∷ b ∷ c ∷ rest) = inr (inl (omega arith))

  full_name-IsFull : (name : List Text) → IsFull (full_name name)
  unfolding full_name
  full_name-IsFull name = elim (Bool-cases (is_system_type system (last_part name))) [
    | inl e ↦ rw (e, full_name) (inl e)
    | inr e ↦ rw (e, full_name) (IsFull-with_namespaces name)
  ]

  long_name : (name : List Text) → (3 ≤ length name) ⊎ (name ≡ []) → with_namespaces name ≡ name
  unfolding with_namespaces
  long_name [] h = refl
  long_name (a ∷ b ∷ c ∷ rest) h = refl
  long_name (a ∷ []) h = ground arith
  long_name (a ∷ b ∷ []) h = ground arith

  full_name-full : (name : List Text) → IsFull name → full_name name ≡ name
  unfolding full_name with_namespaces
  full_name-full name (inl e) = rw (e, full_name) refl
  full_name-full name (inr h) = elim (Bool-cases (is_system_type system (last_part name))) [
    | inl e ↦ rw (e, full_name) refl
    | inr e ↦ rw (e, full_name) (long_name name h)
  ]

  mutual
    unfolding fill_namespaces AreFull

    fill-AreFull : (t : TypeExpr) → AreFull (fill_namespaces t)
    fill-AreFull (scalar name) = full_name-IsFull name
    fill-AreFull (template name args) = fill_all-AllFull args

    fill_all-AllFull : (ts : TypeExprs) → AllFull (fill_all ts)
    fill_all-AllFull nil = tt
    fill_all-AllFull (cons t ts) = (fill-AreFull t, fill_all-AllFull ts)

  mutual
    unfolding fill_namespaces AreFull

    fill-full : (t : TypeExpr) → AreFull t → fill_namespaces t ≡ t
    fill-full (scalar name) h = ap scalar (full_name-full name h)
    fill-full (template name args) h = ap (template name) (fill_all-full args h)

    fill_all-full : (ts : TypeExprs) → AllFull ts → fill_all ts ≡ ts
    fill_all-full nil h = refl
    fill_all-full (cons t ts) (h, hs) = ap₂ cons (fill-full t h) (fill_all-full ts hs)

  mutual
    unfolding fill_namespaces template_names

    fill-template_names : (t : TypeExpr) → template_names (fill_namespaces t) ≡ template_names t
    fill-template_names (scalar name) = refl
    fill-template_names (template name args) = ap (◌∷◌ name) (fill_all-template_names args)

    fill_all-template_names :
        (ts : TypeExprs) → all_template_names (fill_all ts) ≡ all_template_names ts
    fill_all-template_names nil = refl
    fill_all-template_names (cons t ts) =
        ap₂ ◌++◌ (fill-template_names t) (fill_all-template_names ts)

  -- After the namespaces of an attribute are filled in, every scalar name of it that has a part, those
  -- inside templates included, is that of a system type or has three parts at least; the templates'
  -- own names are as before; and to fill them in again changes nothing.
  pub fill_namespaces-Full :
      (t : TypeExpr)
      → AreFull (fill_namespaces t)
        × (template_names (fill_namespaces t) ≡ template_names t)
        × (fill_namespaces (fill_namespaces t) ≡ fill_namespaces t)
  fill_namespaces-Full t =
      (fill-AreFull t, fill-template_names t, fill-full (fill_namespaces t) (fill-AreFull t))
