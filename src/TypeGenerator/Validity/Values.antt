-- ===== src/TypeGenerator/Validity/Values.antt =====
-- The checks of the default value of an attribute, in
-- mcf_tools/types_generator/type_generator/common.py.
use flux_mcf.Prelude.{
  Bool, none, some, List, [], ◌∷◌, ◌==◌, if◌then◌else◌, Result, ok, raise, attribute_error,
  configuration_error, ◌>>=◌,
}
use flux_mcf.Prelude.Text.{Text, codes, text_eq}
use flux_mcf.TypeGenerator.TypeExpr.{TypeExpr, type_name_no_ns, python_type_from_system_type}
use flux_mcf.TypeGenerator.Validity.{
  Attribute, DefaultValue, TypesData, arg_at, args_of, assert_container_type_valid,
  assert_map_key_string, assert_type_permits_default_value, dict_of, is_container_type,
  is_enum_type, is_list_name, is_primitive_type, list_of, require, type_of,
}

module _ (types : TypesData) (builtins : Text → Bool) where
  -- `type(value) == getattr(builtins, ...)` of the Python type of a name
  unfoldable pub is_primitive_correct_type : Text → Text → Result Bool
  unfolding python_type_from_system_type
  is_primitive_correct_type value target =
      let expected = python_type_from_system_type types.system_types (target ∷ []) in
      if builtins expected then ok (value == expected) else raise attribute_error

  unfoldable pub require_type : Text → Text → Result (Unit {0})
  unfolding is_primitive_correct_type
  require_type value target = do correct ← is_primitive_correct_type value target; require correct

  -- the loop over a dictionary
  unfoldable pub all_entries : Text → Text → List (Text × Text) → Result (Unit {0})
  unfolding require_type
  all_entries key_type value_type [] = ok tt
  all_entries key_type value_type ((key, value) ∷ rest) = do
    _ ← require_type key key_type
    _ ← require_type value value_type
    all_entries key_type value_type rest

  -- the loop over a list
  unfoldable pub all_values : Text → List Text → Result (Unit {0})
  unfolding require_type
  all_values value_type [] = ok tt
  all_values value_type (value ∷ rest) = do
    _ ← require_type value value_type
    all_values value_type rest

  unfoldable pub check_map : TypeExpr → DefaultValue → Result (Unit {0})
  unfolding all_entries type_name_no_ns
  check_map t (dict_of entries) = do
    args ← args_of t
    key ← arg_at 0 args
    value ← arg_at 1 args
    all_entries (type_name_no_ns key) (type_name_no_ns value) entries
  check_map t _ = raise configuration_error

  unfoldable pub check_list : TypeExpr → DefaultValue → Result (Unit {0})
  unfolding all_values type_name_no_ns
  check_list t (list_of values) = do
    args ← args_of t
    value ← arg_at 0 args
    all_values (type_name_no_ns value) values
  check_list t _ = raise configuration_error

  unfoldable pub check_pair : TypeExpr → DefaultValue → Result (Unit {0})
  unfolding require_type type_name_no_ns
  check_pair t (list_of (first ∷ second ∷ [])) = do
    args ← args_of t
    left ← arg_at 0 args
    right ← arg_at 1 args
    _ ← require_type first (type_name_no_ns left)
    require_type second (type_name_no_ns right)
  check_pair t _ = raise configuration_error

  unfoldable pub check_container : TypeExpr → DefaultValue → Result (Unit {0})
  unfolding check_map check_list check_pair
  check_container t d =
      let name = type_name_no_ns t in
      if name == codes "map"
      then check_map t d
      else if is_list_name name
      then check_list t d
      else if name == codes "pair"
      then check_pair t d
      else raise configuration_error

  unfoldable pub check_default : TypeExpr → DefaultValue → Result (Unit {0})
  unfolding is_enum_type check_container require_type
  check_default t d = do
    enum ← is_enum_type t types
    _ ← (if enum then require (type_of d == codes "str") else ok tt)
    _ ←
        (if is_primitive_type types.system_types (type_name_no_ns t)
          then require_type (type_of d) (type_name_no_ns t)
          else ok tt)
    if is_container_type types.system_types (type_name_no_ns t) then check_container t d else ok tt

  unfoldable pub assert_default_init_value_types_valid : Attribute → Result (Unit {0})
  unfolding check_default
  assert_default_init_value_types_valid a = elim a.default [
    | none ↦ ok tt
    | some d ↦ check_default a.type d
  ]

  unfoldable pub assert_default_values_valid : Attribute → Result (Unit {0})
  unfolding assert_type_permits_default_value assert_default_init_value_types_valid
  assert_default_values_valid a = do
    _ ← assert_type_permits_default_value a types
    assert_default_init_value_types_valid a

  -- the body of the loops of assert_types_validity
  unfoldable pub assert_attribute_valid : Attribute → Result (Unit {0})
  unfolding assert_map_key_string assert_container_type_valid assert_default_values_valid
  assert_attribute_valid a = do
    _ ← assert_map_key_string a.type
    _ ← assert_container_type_valid types.system_types a.type
    assert_default_values_valid a

  unfoldable pub assert_attributes_valid : List Attribute → Result (Unit {0})
  unfolding assert_attribute_valid
  assert_attributes_valid [] = ok tt
  assert_attributes_valid (a ∷ rest) = do _ ← assert_attribute_valid a; assert_attributes_valid rest

  -- the types of a project: their kinds and their attributes
  unfoldable pub assert_types_validity : List (TypeExpr × List Attribute) → Result (Unit {0})
  unfolding assert_attributes_valid type_name_no_ns
  assert_types_validity [] = ok tt
  assert_types_validity ((kind, attributes) ∷ rest) = do
    _ ← (if type_name_no_ns kind == codes "Enum" then ok tt else assert_attributes_valid attributes)
    assert_types_validity rest
