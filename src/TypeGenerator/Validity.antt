-- ===== src/TypeGenerator/Validity.antt =====
-- The checks of an attribute in mcf_tools/types_generator/type_generator/common.py. `builtins` says
-- which names the module of that name has; a Python type is its name.
pub mod Values
pub mod Containers
pub mod Defaults
use flux_mcf.Prelude.{
  ℕ, zero, suc, Bool, true, false, not, ◌&&◌, ◌||◌, Option, none, some, List, [], ◌∷◌, any_of,
  nat_beq, ◌==◌, if◌then◌else◌, Result, ok, raise, index_error, attribute_error, key_error,
  configuration_error, ◌>>=◌,
}
use flux_mcf.Prelude.Dict.{Dict, lookup}
use flux_mcf.Prelude.Text.{Text, codes, text_eq}
use flux_mcf.TypeGenerator.TypeExpr.{
  TypeExpr, TypeExprs, scalar, template, nil, cons, Category, primitive, container, other_type,
  SystemType, SystemTypes, type_name, type_name_no_ns, cpp_type_with_namespace,
  python_type_from_system_type,
}

-- TypesData, with the kinds of the types
pub record TypesData : Type 0 where
  pub project_types : Dict Text TypeExpr
  pub project_names : List Text
  pub linked_types : Dict Text TypeExpr
  pub linked_names : List Text
  pub system_types : SystemTypes

-- A default value, by what the checks read of it: its type, the types of its elements, or those of its keys and
-- values.
pub data DefaultValue : Type 0 where
  plain : Text → DefaultValue
  list_of : List Text → DefaultValue
  dict_of : List (Text × Text) → DefaultValue

pub record Attribute : Type 0 where
  pub type : TypeExpr
  pub default : Option DefaultValue

abbrev pub type_of : DefaultValue → Text
type_of (plain t) = t
type_of (list_of ts) = codes "list"
type_of (dict_of ts) = codes "OrderedDict"

abbrev pub require : Bool → Result (Unit {0})
require true = ok tt
require false = raise configuration_error

abbrev pub has_category : Category → Category → Bool
has_category primitive primitive = true
has_category container container = true
has_category _ _ = false

abbrev pub category_is : Category → Option SystemType → Bool
category_is c none = false
category_is c (some entry) = has_category c entry.category

unfoldable pub is_primitive_type : SystemTypes → Text → Bool
is_primitive_type system name = category_is primitive (lookup name system)

unfoldable pub is_container_type : SystemTypes → Text → Bool
is_container_type system name = category_is container (lookup name system)

-- `helper` of is_enum_type
unfoldable pub is_enum_of : TypeExpr → List Text → Dict Text TypeExpr → Result Bool
unfolding type_name_no_ns cpp_type_with_namespace
is_enum_of t names kinds =
    let name = cpp_type_with_namespace (type_name t) in
    if any_of (λ n. n == name) names
    then elim (lookup name kinds) [
      | none ↦ raise key_error
      | some kind ↦ ok (type_name_no_ns kind == codes "Enum")
    ]
    else ok false

unfoldable pub is_enum_type : TypeExpr → TypesData → Result Bool
unfolding is_enum_of
is_enum_type t types = do
  project_enum ← is_enum_of t types.project_names types.project_types
  linked_enum ← is_enum_of t types.linked_names types.linked_types
  ok (project_enum || linked_enum)

-- `.args`, which a Scalar does not have, and an entry of it
abbrev pub args_of : TypeExpr → Result TypeExprs
args_of (scalar name) = raise attribute_error
args_of (template name args) = ok args

abbrev pub arg_at : ℕ → TypeExprs → Result TypeExpr
arg_at n nil = raise index_error
arg_at zero (cons t ts) = ok t
arg_at (suc n) (cons t ts) = arg_at n ts

abbrev pub count_args : TypeExprs → ℕ
count_args nil = 0
count_args (cons t ts) = suc (count_args ts)

unfoldable pub assert_map_key_string : TypeExpr → Result (Unit {0})
unfolding type_name_no_ns
assert_map_key_string t =
    if type_name_no_ns t == codes "map"
    then (do args ← args_of t; key ← arg_at 0 args; require (type_name_no_ns key == codes "string"))
    else ok tt

abbrev pub is_list_name : Text → Bool
is_list_name name = name == codes "vector" || name == codes "set"

unfoldable pub assert_container_type_valid : SystemTypes → TypeExpr → Result (Unit {0})
unfolding is_container_type type_name_no_ns
assert_container_type_valid system t =
    let name = type_name_no_ns t in
    if not (is_container_type system name)
    then ok tt
    else if name == codes "map"
    then (do args ← args_of t; require (nat_beq (count_args args) 2))
    else if name == codes "pair"
    then (do args ← args_of t; require (nat_beq (count_args args) 2))
    else if is_list_name name
    then (do args ← args_of t; require (nat_beq (count_args args) 1))
    else raise configuration_error

-- the loop over the arguments
unfoldable pub all_primitive : SystemTypes → TypeExprs → Result (Unit {0})
unfolding is_primitive_type type_name_no_ns
all_primitive system nil = ok tt
all_primitive system (cons t ts) =
    if is_primitive_type system (type_name_no_ns t)
    then all_primitive system ts
    else raise configuration_error

unfoldable pub permits_default : TypeExpr → TypesData → Result (Unit {0})
unfolding is_enum_type all_primitive is_container_type
permits_default t types = do
  enum ← is_enum_type t types
  if enum || is_primitive_type types.system_types (type_name_no_ns t)
      then ok tt
      else if is_container_type types.system_types (type_name_no_ns t)
      then (do args ← args_of t; all_primitive types.system_types args)
      else raise configuration_error

unfoldable pub assert_type_permits_default_value : Attribute → TypesData → Result (Unit {0})
unfolding permits_default
assert_type_permits_default_value a types = elim a.default [
  | none ↦ ok tt
  | some d ↦ permits_default a.type types
]
