-- ===== src/Config.antt =====
-- Configuration dictionaries: `deep_update_dict` and `deep_merge_dicts` of
-- mcf_py/mcf_core/helpers.py, `read_config` and `check_config` of
-- mcf_py/mcf_core/component_framework.py. A value that is no dictionary is a leaf, of any type `A`.
-- A dictionary is updated in place; the model returns the updated one. `json.load` makes new
-- objects, so no two of the dictionaries share a part.
pub mod Merge
use flux_mcf.Prelude.{
  ℕ, String, ◌≡◌, Bool, true, false, Option, none, some, List, [], ◌∷◌, ◌==◌, string_eq,
  if◌then◌else◌,
}

mutual
  pub data Json (A : Type 0) : Type 0 where
    leaf : A → Json A
    dict : Fields A → Json A

  pub data Fields (A : Type 0) : Type 0 where
    nil : Fields A
    field : String → Json A → Fields A → Fields A

module _ {A : Type 0} where
  -- d.get(name, None)
  unfoldable pub get : String → Fields A → Option (Json A)
  get k nil = none
  get k (field j v fs) = if j == k then some v else get k fs

  -- d[name] = value
  unfoldable pub put : String → Json A → Fields A → Fields A
  put k v nil = field k v nil
  put k v (field j w fs) = if j == k then field j v fs else field j w (put k v fs)

  unfoldable mutual
    -- what the entry of `name` becomes
    pub updated : Json A → Option (Json A) → Json A
    updated (leaf a) p = leaf a
    updated (dict c) none = dict c
    updated (dict c) (some (leaf b)) = dict c
    updated (dict c) (some (dict p)) = dict (deep_update_dict c p)

    -- the child first, by whose items the loop goes
    pub deep_update_dict : Fields A → Fields A → Fields A
    deep_update_dict nil p = p
    deep_update_dict (field k v c) p = deep_update_dict c (put k (updated v (get k p)) p)

  unfoldable pub deep_merge_dicts : Fields A → List (Fields A) → Fields A
  deep_merge_dicts p [] = p
  deep_merge_dicts p (c ∷ cs) = deep_merge_dicts (deep_update_dict c p) cs

  -- the end of read_config: the first dictionary is updated by the others
  unfoldable pub merge_all : List (Fields A) → Fields A
  merge_all [] = nil
  merge_all (parent ∷ children) = deep_merge_dicts parent children

-- `read_config` and `check_config` of a component. The file system is `load`, which gives the
-- content of a file that exists, and `join` is `os.path.join`.
module _ {A : Type 0} (join : String → String → String) (load : String → Option (Fields A)) where
  -- the existing files, in the order of the directories
  unfoldable pub load_all : String → List String → List (Fields A)
  load_all config_name [] = []
  load_all config_name (d ∷ dirs) =
      let rest = load_all config_name dirs in
      elim (load (join d config_name)) [ none ↦ rest | some cfg ↦ cfg ∷ rest ]

  unfoldable pub read_config : String → List String → Fields A
  unfolding load_all merge_all
  read_config config_name config_dirs = merge_all (load_all config_name config_dirs)

-- The entry of the component's name; `null` is Python's None. Each `none` is logged as an error.
unfoldable pub check_config : {A : Type 0} → (A → Bool) → String → Fields A → Option (Json A)
check_config is_null name nil = none
check_config is_null name (field j v fs) = elim (get name (field j v fs)) [
  | none ↦ none
  | some (leaf a) ↦ if is_null a then none else some (leaf a)
  | some (dict f) ↦ some (dict f)
]
