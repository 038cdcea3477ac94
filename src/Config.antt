-- ===== src/Config.antt =====
-- The configuration of pkg/buildfab/buildfab.go (`Config`, `Action`, `Stage`, `Step`) and its
-- look-ups. `Project` is flattened into its three fields. A nil slice and an empty one are both
-- `[]`, since the program tests them by their length only.
pub mod Validate
pub mod Valid
pub mod Merge
pub mod Include
pub mod Resolved
pub mod Loading
pub mod Loaded
pub mod Variables
pub mod Closed
pub mod Resolving
pub mod Loader
pub mod Accepted
pub mod FromDir
use buildfab.Base.{Str, List, [], ◌∷◌, Option, none, some, str_eq, if◌then◌else◌}
use buildfab.Base.Dict
use buildfab.Base.Dict.{Dict}

pub record ActionVariant : Type 0 where
  pub when : Str
  pub run : Str
  pub uses : Str
  pub shell : Str

pub record Action : Type 0 where
  pub name : Str
  pub run : Str
  pub uses : Str
  pub shell : Str
  pub variants : List ActionVariant

pub record Step : Type 0 where
  pub action : Str
  pub require : List Str
  pub on_error : Str
  pub if_condition : Str
  pub only : List Str

pub record Stage : Type 0 where
  pub steps : List Step

pub record Config : Type 0 where
  pub project_name : Str
  pub project_modules : List Str
  pub project_bin_dir : Str
  pub include : List Str
  pub actions : List Action
  pub stages : Dict Stage

-- The loop of `GetAction`: the first action of that name.
unfoldable pub find_action : List Action → Str → Option Action
find_action [] name = none
find_action (action ∷ rest) name =
    if str_eq action.name name then some action else find_action rest name

unfoldable pub get_action : Config → Str → Option Action
get_action c name = find_action c.actions name

unfoldable pub get_stage : Config → Str → Option Stage
get_stage c name = Dict.lookup name c.stages
