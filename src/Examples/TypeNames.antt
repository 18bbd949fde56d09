-- ===== src/Examples/TypeNames.antt =====
-- Type names, their parser and the checks of attributes.
use flux_mcf.Prelude.{◌≡◌, refl, Bool, some, [], ◌∷◌, ok, raise, index_error, ◌==◌, ◌||◌}
use flux_mcf.Prelude.Dict.{lookup}
use flux_mcf.Prelude.Text.{Text, codes, text_eq}
use flux_mcf.TypeGenerator.TypeExpr.{
  TypeExpr, scalar, template, nil, cons, SystemTypes, primitive, container, as_cpp_type,
  cpp_type_from_system_type, cpp_type_with_namespace,
}
use flux_mcf.TypeGenerator.Parser.{parse}
use flux_mcf.TypeGenerator.Parser.Proper.{IsProper}
use flux_mcf.TypeGenerator.Parser.RoundTrip.{parse-print}
use flux_mcf.TypeGenerator.Parser.Total.{Ends, parse-Ends}
use flux_mcf.TypeGenerator.Namespaces.{
  fill_namespaces, AreFull, template_names, fill_namespaces-Full,
}
use flux_mcf.TypeGenerator.Validity.{TypesData, DefaultValue, dict_of}
use flux_mcf.TypeGenerator.Validity.Values.{assert_attribute_valid}
use flux_mcf.TypeGenerator.Validity.Defaults.{IsPermitted, IsChecked, assert_attribute_valid-Fits}

-- m<s, v<n::V>>
abbrev nested : TypeExpr
nested = template (codes "m" ∷ []) (
    cons (scalar (codes "s" ∷ []))
      (cons (template (codes "v" ∷ []) (cons (scalar (codes "n" ∷ codes "V" ∷ [])) nil)) nil))

printed : as_cpp_type [] nested ≡ codes "m<s, v<n::V>>"
unfolding as_cpp_type cpp_type_from_system_type cpp_type_with_namespace lookup
printed = refl

nested-IsProper : IsProper nested
unfolding IsProper
nested-IsProper = (
  (((refl, tt), (refl, tt)), tt),
  (((refl, tt), (refl, tt)), tt),
  (
    (
      (((refl, tt), (refl, tt)), tt),
      (((refl, tt), (refl, tt)), (((refl, tt), (refl, tt)), tt)),
      tt,
    ),
    tt,
  ),
)

parse-print_example : parse (as_cpp_type [] nested) ≡ some (ok nested)
parse-print_example = parse-print nested nested-IsProper

parse-Ends_example : Ends (parse (codes "a<b, >>c d"))
parse-Ends_example = parse-Ends (codes "a<b, >>c d")

-- An empty argument is an IndexError, and what follows a name is dropped.
empty_argument : parse (codes "a< >") ≡ some (raise index_error)
unfolding parse
empty_argument = refl

dropped_tokens : parse (codes "a b<c>") ≡ some (ok (scalar (codes "a" ∷ [])))
unfolding parse
dropped_tokens = refl

abbrev system : SystemTypes
system =
    (
      codes "string",
      record { cpp_name = codes "std::string"; py_name = codes "str"; category = primitive },
    )
    ∷ (codes "int", record { cpp_name = codes "int"; py_name = codes "int"; category = primitive })
    ∷ (
      codes "map",
      record { cpp_name = codes "std::map"; py_name = codes "Dict"; category = container },
    )
    ∷ []

fill_namespaces-Full_example :
    AreFull system (codes "p") (codes "g") (fill_namespaces system (codes "p") (codes "g") nested)
    × (template_names (fill_namespaces system (codes "p") (codes "g") nested)
        ≡ template_names nested)
    × (fill_namespaces system
          (codes "p")
          (codes "g")
          (fill_namespaces system (codes "p") (codes "g") nested)
        ≡ fill_namespaces system (codes "p") (codes "g") nested)
fill_namespaces-Full_example = fill_namespaces-Full system (codes "p") (codes "g") nested

abbrev types : TypesData
types = record {
  project_types = [];
  project_names = [];
  linked_types = [];
  linked_names = [];
  system_types = system;
}

abbrev builtins : Text → Bool
builtins name = name == codes "str" || name == codes "int"

abbrev counts : TypeExpr
counts =
    template (codes "map" ∷ [])
      (cons (scalar (codes "string" ∷ [])) (cons (scalar (codes "int" ∷ [])) nil))

abbrev default : DefaultValue
default = dict_of ((codes "str", codes "int") ∷ [])

assert_attribute_valid-Fits_example :
    IsPermitted types builtins counts × IsChecked types builtins counts default
unfolding assert_attribute_valid lookup
assert_attribute_valid-Fits_example = assert_attribute_valid-Fits types builtins counts default refl
