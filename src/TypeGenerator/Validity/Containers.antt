-- ===== src/TypeGenerator/Validity/Containers.antt =====
-- What the check of a container's default value says, for maps, lists and pairs.
use flux_mcf.Prelude.{
  ℕ, suc, ◌<◌, ◌≡◌, inl, inr, refl, Bool, true, false, List, [], ◌∷◌, nat_beq, nat_beq_iff, ◌==◌,
  ok, ◌>>=◌, bind-ok, All, arith, Bool-cases,
}
use flux_mcf.Prelude.Text.{Text, codes, text_eq}
use flux_mcf.TypeGenerator.TypeExpr.{
  TypeExpr, TypeExprs, scalar, template, nil, cons, type_name_no_ns, python_type_from_system_type,
}
use flux_mcf.TypeGenerator.Validity.{
  TypesData, DefaultValue, plain, list_of, dict_of, require, is_container_type, args_of, count_args,
  is_list_name, assert_container_type_valid,
}
use flux_mcf.TypeGenerator.Validity.Values.{
  is_primitive_correct_type, require_type, all_entries, all_values, check_map, check_list,
  check_pair, check_container,
}

pub require-true : (b : Bool) → require b ≡ ok tt → b ≡ true
require-true true h = refl
require-true false h = ground arith

counted : (m n : ℕ) → n < m → require (nat_beq m n) ≡ ok tt → ⊥
counted m n h e = omega (arith, (nat_beq_iff m n).0 (require-true (nat_beq m n) e))

module _ (types : TypesData) (builtins : Text → Bool) where
  -- a value, by its type, of a system type
  abbrev pub IsOf : Text → Text → Type 0
  IsOf target value = value ≡ python_type_from_system_type types.system_types (target ∷ [])

  -- a default value of a container with some arguments
  pub data Fits : Text → TypeExprs → DefaultValue → Type 0 where
    map_fits :
        {key value : TypeExpr} (entries : List (Text × Text))
        → All (λ (k, v). IsOf (type_name_no_ns key) k × IsOf (type_name_no_ns value) v) entries
        → Fits (codes "map") (cons key (cons value nil)) (dict_of entries)
    list_fits :
        {name : Text} {element : TypeExpr} (values : List Text)
        → is_list_name name ≡ true
        → All (IsOf (type_name_no_ns element)) values
        → Fits name (cons element nil) (list_of values)
    pair_fits :
        {left right : TypeExpr} (first second : Text)
        → IsOf (type_name_no_ns left) first
        → IsOf (type_name_no_ns right) second
        → Fits (codes "pair") (cons left (cons right nil)) (list_of (first ∷ second ∷ []))

  pub require_type-ok :
      (value target : Text) → require_type types builtins value target ≡ ok tt → IsOf target value
  unfolding require_type is_primitive_correct_type
  require_type-ok value target h =
      let expected = python_type_from_system_type types.system_types (target ∷ []) in
      elim (Bool-cases (builtins expected)) [
        | inr e ↦ ground (arith, e, h)
        | inl e ↦
            (let correct : require (value == expected) ≡ ok tt = ground (arith, e, h) in
              (text_eq.beq_iff value expected).0 (require-true (value == expected) correct))
      ]

  all_values-ok :
      (target : Text) (values : List Text)
      → all_values types builtins target values ≡ ok tt
      → All (IsOf target) values
  unfolding all_values
  all_values-ok target [] h = tt
  all_values-ok target (value ∷ rest) h =
      let (u, e, e') =
        bind-ok (require_type types builtins value target)
          (λ u. all_values types builtins target rest) tt h in
      (require_type-ok value target e, all_values-ok target rest e')

  all_entries-ok :
      (key_type value_type : Text) (entries : List (Text × Text))
      → all_entries types builtins key_type value_type entries ≡ ok tt
      → All (λ (k, v). IsOf key_type k × IsOf value_type v) entries
  unfolding all_entries
  all_entries-ok key_type value_type [] h = tt
  all_entries-ok key_type value_type ((key, value) ∷ rest) h =
      let (u, e, h') = bind-ok (require_type types builtins key key_type) _ tt h in
      let (u', e', h'') = bind-ok (require_type types builtins value value_type) _ tt h' in
      (
        (require_type-ok key key_type e, require_type-ok value value_type e'),
        all_entries-ok key_type value_type rest h'',
      )

  abbrev HasArgs : ℕ → TypeExpr → Type 0
  HasArgs n t = (do args ← args_of t; require (nat_beq (count_args args) n)) ≡ ok tt

  -- the arguments of a template that a default value fits
  abbrev pub ArgsFit : TypeExpr → DefaultValue → Type 0
  ArgsFit t d = (args : TypeExprs) × (args_of t ≡ ok args) × Fits (type_name_no_ns t) args d

  map-Fits :
      (t : TypeExpr) (d : DefaultValue)
      → type_name_no_ns t ≡ codes "map"
      → HasArgs 2 t
      → check_map types builtins t d ≡ ok tt
      → ArgsFit t d
  unfolding check_map
  map-Fits (template n (cons k (cons v nil))) (dict_of entries) name count h = (
    cons k (cons v nil),
    refl,
    rw name (map_fits entries (all_entries-ok (type_name_no_ns k) (type_name_no_ns v) entries h)),
  )
  map-Fits (template n (cons k (cons v nil))) (list_of entries) name count h = ground arith
  map-Fits (template n (cons k (cons v nil))) (plain v') name count h = ground arith
  map-Fits (template n (cons k (cons v (cons w rest)))) d name count h =
      absurd (counted (suc (suc (suc (count_args rest)))) 2 (omega arith) count)
  map-Fits (template n (cons k nil)) d name count h = ground arith
  map-Fits (template n nil) d name count h = ground arith
  map-Fits (scalar n) d name count h = ground arith

  list-Fits :
      (t : TypeExpr) (d : DefaultValue)
      → is_list_name (type_name_no_ns t) ≡ true
      → HasArgs 1 t
      → check_list types builtins t d ≡ ok tt
      → ArgsFit t d
  unfolding check_list
  list-Fits (template n (cons v nil)) (list_of values) name count h =
      (cons v nil, refl, list_fits values name (all_values-ok (type_name_no_ns v) values h))
  list-Fits (template n (cons v nil)) (dict_of entries) name count h = ground arith
  list-Fits (template n (cons v nil)) (plain v') name count h = ground arith
  list-Fits (template n (cons v (cons w rest))) d name count h =
      absurd (counted (suc (suc (count_args rest))) 1 (omega arith) count)
  list-Fits (template n nil) d name count h = ground arith
  list-Fits (scalar n) d name count h = ground arith

  pair-Fits :
      (t : TypeExpr) (d : DefaultValue)
      → type_name_no_ns t ≡ codes "pair"
      → HasArgs 2 t
      → check_pair types builtins t d ≡ ok tt
      → ArgsFit t d
  unfolding check_pair
  pair-Fits (template n (cons l (cons r nil))) (list_of (x ∷ y ∷ [])) name count h =
      let (u, e, e') = bind-ok (require_type types builtins x (type_name_no_ns l)) _ tt h in
      (
        cons l (cons r nil),
        refl,
        rw name (
            pair_fits x y (require_type-ok x (type_name_no_ns l) e)
              (require_type-ok y (type_name_no_ns r) e')),
      )
  pair-Fits (template n (cons l (cons r nil))) (list_of []) name count h = ground arith
  pair-Fits (template n (cons l (cons r nil))) (list_of (x ∷ [])) name count h = ground arith
  pair-Fits (template n (cons l (cons r nil))) (list_of (x ∷ y ∷ z ∷ rest)) name count h =
      ground arith
  pair-Fits (template n (cons l (cons r nil))) (dict_of entries) name count h = ground arith
  pair-Fits (template n (cons l (cons r nil))) (plain v') name count h = ground arith
  pair-Fits (template n (cons k (cons v (cons w rest)))) d name count h =
      absurd (counted (suc (suc (suc (count_args rest)))) 2 (omega arith) count)
  pair-Fits (template n (cons k nil)) d name count h = ground arith
  pair-Fits (template n nil) d name count h = ground arith
  pair-Fits (scalar n) d name count h = ground arith

  -- which arguments a container has, by the check of its name
  pub container-Fits :
      (t : TypeExpr) (d : DefaultValue)
      → is_container_type types.system_types (type_name_no_ns t) ≡ true
      → assert_container_type_valid types.system_types t ≡ ok tt
      → check_container types builtins t d ≡ ok tt
      → ArgsFit t d
  unfolding assert_container_type_valid check_container
  container-Fits t d container count h =
      let name = type_name_no_ns t in
      elim (Bool-cases (name == codes "map")) [
        | inl e ↦
            map-Fits t d ((text_eq.beq_iff name (codes "map")).0 e)
              (ground (arith, container, e, count)) (ground (arith, e, h))
        | inr no_map ↦ elim (Bool-cases (name == codes "pair")) [
          | inl e ↦
              (let pair : name ≡ codes "pair" = (text_eq.beq_iff name (codes "pair")).0 e in
                let no_list : is_list_name name ≡ false = rw pair refl in
                pair-Fits t d pair (ground (arith, container, no_map, e, count))
                  (ground (arith, no_map, no_list, e, h)))
          | inr no_pair ↦ elim (Bool-cases (is_list_name name)) [
            | inl e ↦
                list-Fits t d e (ground (arith, container, no_map, no_pair, e, count))
                  (ground (arith, no_map, e, h))
            | inr e ↦ ground (arith, container, no_map, no_pair, e, count)
          ]
        ]
      ]
