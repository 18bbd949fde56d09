-- ===== src/TypeGenerator/Validity/Defaults.antt =====
-- What the checks say of an attribute with a default value.
use flux_mcf.Prelude.{
  ◌≡◌, ◌⊎◌, inl, inr, ap, ◌∙◌, Bool, true, false, some, ◌==◌, if◌then◌else◌, ok, ◌>>=◌, bind-ok,
  arith, Bool-cases,
}
use flux_mcf.Prelude.Text.{Text, codes, text_eq}
use flux_mcf.TypeGenerator.TypeExpr.{TypeExpr, TypeExprs, type_name_no_ns}
use flux_mcf.TypeGenerator.Validity.{
  TypesData, DefaultValue, type_of, require, is_primitive_type, is_container_type, is_enum_type,
  args_of, assert_map_key_string, assert_container_type_valid, permits_default, all_primitive,
  assert_type_permits_default_value,
}
use flux_mcf.TypeGenerator.Validity.Values.{
  require_type, check_default, assert_default_init_value_types_valid, assert_default_values_valid,
  assert_attribute_valid,
}
use flux_mcf.TypeGenerator.Validity.Containers.{
  require-true, IsOf, ArgsFit, require_type-ok, container-Fits,
}

module _ (types : TypesData) (builtins : Text → Bool) where
  -- an attribute with a default value whose checks pass
  abbrev pub IsChecked : TypeExpr → DefaultValue → Type 0
  IsChecked t d =
      (((is_enum_type t types ≡ ok true) × (type_of d ≡ codes "str"))
        ⊎ (is_enum_type t types ≡ ok false))
      × (((is_primitive_type types.system_types (type_name_no_ns t) ≡ true)
            × IsOf types builtins (type_name_no_ns t) (type_of d))
          ⊎ (is_primitive_type types.system_types (type_name_no_ns t) ≡ false))
      × (((is_container_type types.system_types (type_name_no_ns t) ≡ true)
            × ArgsFit types builtins t d)
          ⊎ (is_container_type types.system_types (type_name_no_ns t) ≡ false))

  check_default-IsChecked :
      (t : TypeExpr) (d : DefaultValue)
      → assert_container_type_valid types.system_types t ≡ ok tt
      → check_default types builtins t d ≡ ok tt
      → IsChecked t d
  unfolding check_default
  check_default-IsChecked t d count h =
      let name = type_name_no_ns t in
      let (enum, e1, h1) = bind-ok (is_enum_type t types) _ tt h in
      let (u2, e2, h2) =
        bind-ok (if enum then require (type_of d == codes "str") else ok tt) _ tt h1 in
      let (u3, e3, h3) =
        bind-ok
          (if is_primitive_type types.system_types name
            then require_type types builtins (type_of d) name
            else ok tt)
          _ tt h2 in
      (
        elim (Bool-cases enum) [
          | inl e ↦ inl (
            e1 ∙ ap (λ x. ok x) e,
            (text_eq.beq_iff (type_of d) (codes "str")).0
                (require-true (type_of d == codes "str") (ground (arith, e, e2))),
          )
          | inr e ↦ inr (e1 ∙ ap (λ x. ok x) e)
        ],
        elim (Bool-cases (is_primitive_type types.system_types name)) [
          | inl e ↦ inl (e, require_type-ok types builtins (type_of d) name (ground (arith, e, e3)))
          | inr e ↦ inr e
        ],
        elim (Bool-cases (is_container_type types.system_types name)) [
          | inl e ↦ inl (e, container-Fits types builtins t d e count (ground (arith, e, h3)))
          | inr e ↦ inr e
        ],
      )

  -- some kind of type permits a default value
  abbrev pub IsPermitted : TypeExpr → Type 0
  IsPermitted t =
      (is_enum_type t types ≡ ok true)
      ⊎ (is_primitive_type types.system_types (type_name_no_ns t) ≡ true)
      ⊎ ((is_container_type types.system_types (type_name_no_ns t) ≡ true)
          × ((args : TypeExprs) × (args_of t ≡ ok args)
              × (all_primitive types.system_types args ≡ ok tt)))

  permits_default-IsPermitted : (t : TypeExpr) → permits_default t types ≡ ok tt → IsPermitted t
  unfolding permits_default
  permits_default-IsPermitted t h =
      let name = type_name_no_ns t in
      let (enum, e, h1) = bind-ok (is_enum_type t types) _ tt h in
      elim (Bool-cases enum) [
        | inl e' ↦ inl (e ∙ ap (λ x. ok x) e')
        | inr e' ↦ elim (Bool-cases (is_primitive_type types.system_types name)) [
          | inl e'' ↦ inr (inl e'')
          | inr e'' ↦ elim (Bool-cases (is_container_type types.system_types name)) [
            | inl e3 ↦
                (let inner : (do args ← args_of t; all_primitive types.system_types args) ≡ ok tt =
                    ground (arith, e', e'', e3, h1) in
                  inr (inr (e3, bind-ok (args_of t) (all_primitive types.system_types) tt inner)))
            | inr e3 ↦ ground (arith, e', e'', e3, h1)
          ]
        ]
      ]

  -- If the checks of an attribute with a default value pass, its type is an enum, a primitive type or a container
  -- of primitive types, and the default value fits it: a string for an enum, a value of the Python type for a
  -- primitive type, and for a map, a vector, a set or a pair a collection whose entries are of the
  -- types of the arguments.
  pub assert_attribute_valid-Fits :
      (t : TypeExpr) (d : DefaultValue)
      → assert_attribute_valid types builtins (record { type = t; default = some d }) ≡ ok tt
      → IsPermitted t × IsChecked t d
  unfolding assert_attribute_valid assert_default_values_valid assert_type_permits_default_value
      assert_default_init_value_types_valid
  assert_attribute_valid-Fits t d h =
      let (u1, e1, h1) = bind-ok (assert_map_key_string t) _ tt h in
      let (u2, e2, h2) = bind-ok (assert_container_type_valid types.system_types t) _ tt h1 in
      let (u3, e3, h3) = bind-ok (permits_default t types) _ tt h2 in
      (permits_default-IsPermitted t e3, check_default-IsChecked t d e2 h3)
