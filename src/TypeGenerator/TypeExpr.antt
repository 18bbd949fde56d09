-- ===== src/TypeGenerator/TypeExpr.antt =====
-- `Scalar` and `Template` of mcf_tools/types_generator/type_generator/common.py, and the texts that
-- they give.
use flux_mcf.Prelude.{none, some, List, [], ◌∷◌, ◌++◌}
use flux_mcf.Prelude.Dict.{Dict, lookup}
use flux_mcf.Prelude.Text.{Text, codes, text_eq, join}

-- The name is a list of namespaces with the type at its end.
mutual
  pub data TypeExpr : Type 0 where
    scalar : List Text → TypeExpr
    template : List Text → TypeExprs → TypeExpr

  pub data TypeExprs : Type 0 where
    nil : TypeExprs
    cons : TypeExpr → TypeExprs → TypeExprs

-- An entry of `system_types["SystemTypes"]`.
pub data Category : Type 0 where
  primitive container other_type : Category

pub record SystemType : Type 0 where
  pub cpp_name : Text
  pub py_name : Text
  pub category : Category

abbrev pub SystemTypes : Type 0
SystemTypes = Dict Text SystemType

abbrev pub type_name : TypeExpr → List Text
type_name (scalar name) = name
type_name (template name args) = name

-- `name[-1]`, for a name that is not empty
unfoldable pub last_part : List Text → Text
last_part [] = []
last_part (part ∷ []) = part
last_part (part ∷ next ∷ rest) = last_part (next ∷ rest)

unfoldable pub type_name_no_ns : TypeExpr → Text
unfolding last_part
type_name_no_ns t = last_part (type_name t)

unfoldable pub cpp_type_with_namespace : List Text → Text
cpp_type_with_namespace name = join (codes "::") name

unfoldable pub python_type_with_namespace : List Text → Text
python_type_with_namespace name = join (codes ".") name

unfoldable pub python_type_from_system_type : SystemTypes → List Text → Text
unfolding last_part python_type_with_namespace
python_type_from_system_type system name = elim (lookup (last_part name) system) [
  | some entry ↦ entry.py_name
  | none ↦
      codes "value_types." ++ (python_type_with_namespace name ++ (codes "." ++ last_part name))
]

unfoldable pub cpp_type_from_system_type : SystemTypes → Text → Text
cpp_type_from_system_type system name = elim (lookup name system) [
  | some entry ↦ entry.cpp_name
  | none ↦ name
]

abbrev pub cpp_name : SystemTypes → List Text → Text
cpp_name system name = cpp_type_from_system_type system (cpp_type_with_namespace name)

unfoldable mutual
  pub as_generic_type_list : TypeExpr → List (List Text)
  as_generic_type_list (scalar name) = name ∷ []
  as_generic_type_list (template name args) = name ∷ all_generic args

  pub all_generic : TypeExprs → List (List Text)
  all_generic nil = []
  all_generic (cons t ts) = as_generic_type_list t ++ all_generic ts

unfoldable mutual
  pub as_cpp_type : SystemTypes → TypeExpr → Text
  as_cpp_type system (scalar name) = cpp_name system name
  as_cpp_type system (template name args) =
      cpp_name system name ++ (codes "<" ++ (join (codes ", ") (all_cpp system args) ++ codes ">"))

  pub all_cpp : SystemTypes → TypeExprs → List Text
  all_cpp system nil = []
  all_cpp system (cons t ts) = as_cpp_type system t ∷ all_cpp system ts

unfoldable mutual
  pub as_python_type : SystemTypes → TypeExpr → Text
  as_python_type system (scalar name) = python_type_from_system_type system name
  as_python_type system (template name args) =
      python_type_from_system_type system name
      ++ (codes "[" ++ (join (codes ", ") (all_python system args) ++ codes "]"))

  pub all_python : SystemTypes → TypeExprs → List Text
  all_python system nil = []
  all_python system (cons t ts) = as_python_type system t ∷ all_python system ts
