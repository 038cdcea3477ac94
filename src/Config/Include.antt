-- ===== src/Config/Include.antt =====
-- internal/config/include.go: `ResolveIncludes` and `LoadIncludedConfigs`. The file system, the paths
-- and the parser of YAML are parameters.
use buildfab.Base.{
  Str, codes, Bool, ◌||◌, List, [], ◌∷◌, ◌++◌, contains, if◌then◌else◌, Fallible, returns, fails,
}
use buildfab.Base.Dict.{Dict}
use buildfab.Base.Strings.{str_contains, has_suffix, to_lower}
use buildfab.Config.{Action, Stage}
use buildfab.Config.Merge.{merge_actions, merge_stages}

pub record PartialConfig : Type 0 where
  pub actions : List Action
  pub stages : Dict Stage

-- What is outside: whether a path exists, `filepath.IsAbs`, `Join` with the base directory, `Dir`,
-- `Glob`, and reading and parsing a file.
pub record FileSystem : Type 0 where
  pub exists : Str → Bool
  pub is_abs : Str → Bool
  pub join_base : Str → Str
  pub dir : Str → Str
  pub glob : Str → Fallible (List Str)
  pub read : Str → Fallible PartialConfig

abbrev pub is_yaml : Str → Bool
is_yaml path =
    has_suffix (to_lower path) (codes ".yml") || has_suffix (to_lower path) (codes ".yaml")

unfoldable pub yaml_files : List Str → List Str
yaml_files [] = []
yaml_files (path ∷ paths) =
    let rest = yaml_files paths in if is_yaml path then path ∷ rest else rest

-- The part of a list that is not seen before, each once.
unfoldable pub add_files : List Str → List Str → List Str
add_files resolved [] = resolved
add_files resolved (file ∷ files) =
    add_files (if contains resolved file then resolved else resolved ++ file ∷ []) files

module _ (fs : FileSystem) where
  unfoldable pub resolve_exact_path : Str → Fallible (List Str)
  resolve_exact_path path =
      if fs.exists path
      then returns (path ∷ [])
      else fails (codes "included file does not exist: " ++ path)

  unfoldable pub resolve_glob_pattern : Str → Fallible (List Str)
  resolve_glob_pattern pattern_ =
      if fs.exists (fs.dir pattern_)
      then elim (fs.glob pattern_) [
        | fails e ↦ fails (codes "invalid glob pattern: " ++ e)
        | returns matches ↦ returns (yaml_files matches)
      ]
      else fails (codes "directory for include pattern does not exist: " ++ fs.dir pattern_)

  unfoldable pub resolve_pattern : Str → Fallible (List Str)
  resolve_pattern pattern_ =
      let path = if fs.is_abs pattern_ then pattern_ else fs.join_base pattern_ in
      if str_contains pattern_ (codes "*")
      then resolve_glob_pattern path
      else resolve_exact_path path

  -- The loop of `ResolveIncludes`; the keys of `seen` are the files resolved so far.
  unfoldable pub resolve_from : List Str → List Str → Fallible (List Str)
  resolve_from resolved [] = returns resolved
  resolve_from resolved (p ∷ patterns) = elim (resolve_pattern p) [
    | fails e ↦ fails (codes "failed to resolve include pattern: " ++ e)
    | returns files ↦ resolve_from (add_files resolved files) patterns
  ]

  abbrev pub resolve_includes : List Str → Fallible (List Str)
  resolve_includes patterns = resolve_from [] patterns

  -- The loop of `LoadIncludedConfigs`.
  unfoldable pub load_from : List Str → PartialConfig → List Str → Fallible PartialConfig
  load_from visited merged [] = returns merged
  load_from visited merged (path ∷ paths) =
      if contains visited path
      then fails (codes "circular include detected: " ++ path)
      else elim (fs.read path) [
        | fails e ↦ fails (codes "failed to load included file " ++ (path ++ (codes ": " ++ e)))
        | returns config ↦
            load_from (path ∷ visited)
              (record {
                actions = merge_actions merged.actions config.actions;
                stages = merge_stages merged.stages config.stages;
              })
              paths
      ]

  abbrev pub load_included_configs : List Str → Fallible PartialConfig
  load_included_configs paths = load_from [] (record { actions = []; stages = [] }) paths
