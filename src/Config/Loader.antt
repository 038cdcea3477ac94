-- ===== src/Config/Loader.antt =====
-- From a path to a configuration: `LoadConfig` of pkg/buildfab/config.go, and `Loader.Load`,
-- `LoadFromDir` and `DetectGitVariables` of internal/config/config.go. Reading a file and parsing it
-- are one call of `read`. `stat` is whether `os.Stat` returns no error; `exists` of a file system is
-- whether it returns another error than that there is no such file, or none. `range` is the order in
-- which the validation ranges over the stages.
use buildfab.Base.{
  Str, codes, Bool, List, [], ◌∷◌, Option, none, some, str_eq, if◌then◌else◌, Fallible, returns,
  fails,
}
use buildfab.Base.Dict
use buildfab.Base.Dict.{Dict}
use buildfab.Base.Strings.{trim_space}
use buildfab.Config.{Stage, Config}
use buildfab.Config.Merge.{merge_config}
use buildfab.Config.Validate.{ConfigError, validate}
use buildfab.Config.Include.{FileSystem, resolve_includes, load_included_configs}
use buildfab.Config.Loading.{Files, IncludeError, Included, included, refused, process_includes}

pub data LoadError : Type 0 where
  no_default_file : LoadError
  not_found : Str → LoadError
  unreadable_file : Str → Str → LoadError
  includes_failed : IncludeError → LoadError
  includes_unresolved : Str → LoadError
  includes_unloaded : Str → LoadError
  invalid : ConfigError → LoadError

pub data Loaded : Type 0 where
  loaded : Config → Loaded
  not_loaded : LoadError → Loaded

-- The first path that passes.
unfoldable pub find_first : (Str → Bool) → List Str → Option Str
find_first stat [] = none
find_first stat (p ∷ paths) = if stat p then some p else find_first stat paths

abbrev pub default_paths : List Str
default_paths =
    codes ".project.yml" ∷ codes "project.yml" ∷ codes ".buildfab.yml" ∷ codes "buildfab.yml" ∷ []

abbrev pub config_files : List Str
config_files =
    codes ".project.yml"
    ∷ codes ".project.yaml"
    ∷ codes "project.yml"
    ∷ codes "project.yaml"
    ∷ codes "buildfab.yml"
    ∷ codes "buildfab.yaml"
    ∷ []

unfoldable pub config_path : (Str → Bool) → Str → Option Str
config_path stat path = if str_eq path [] then find_first stat default_paths else some path

unfoldable pub validated : (Dict Stage → Dict Stage) → Config → Loaded
validated range c = elim (validate range c) [ none ↦ loaded c | some e ↦ not_loaded (invalid e) ]

-- The working directory of a configuration that names none.
unfoldable pub with_bin_dir : Str → Config → Config
with_bin_dir dir c = if str_eq c.project_bin_dir [] then record c { project_bin_dir = dir } else c

unfoldable pub after_includes : (Dict Stage → Dict Stage) → Included → Loaded
after_includes range (included c) = validated range c
after_includes range (refused e) = not_loaded (includes_failed e)

module _ (fs : Files) (known : List Str) (range : Dict Stage → Dict Stage) where
  unfoldable pub parsed : Str → Config → Loaded
  parsed path found =
      let c = with_bin_dir (fs.dir path) found in
      after_includes range
        (elim c.include [ [] ↦ included c | _ ∷ _ ↦ process_includes fs known c (fs.dir path) ])

  unfoldable pub load_path : Str → Loaded
  load_path path =
      if fs.exists path
      then elim (fs.read path) [
        | fails e ↦ not_loaded (unreadable_file path e)
        | returns found ↦ parsed path found
      ]
      else not_loaded (not_found path)

  unfoldable pub load_config : (Str → Bool) → Str → Loaded
  load_config stat path = elim (config_path stat path) [
    | none ↦ not_loaded no_default_file
    | some p ↦ load_path p
  ]

-- `resolver` is a file system whose base is a directory; `read` is of the main file.
module _ (resolver : FileSystem) (range : Dict Stage → Dict Stage) where
  unfoldable pub load_includes : Config → Loaded
  load_includes c = elim (resolve_includes resolver c.include) [
    | fails e ↦ not_loaded (includes_unresolved e)
    | returns files ↦ elim (load_included_configs resolver files) [
      | fails e ↦ not_loaded (includes_unloaded e)
      | returns part ↦ validated range (merge_config c part.actions part.stages)
    ]
  ]

  unfoldable pub load : (Str → Fallible Config) → Str → Loaded
  load read path =
      if resolver.exists path
      then elim (read path) [
        | fails e ↦ not_loaded (unreadable_file path e)
        | returns c ↦ elim c.include [ [] ↦ validated range c | _ ∷ _ ↦ load_includes c ]
      ]
      else not_loaded (not_found path)

-- `load_file` is `Load`.
unfoldable pub load_from_dir : (Str → Bool) → (Str → Str → Str) → (Str → Loaded) → Str → Loaded
load_from_dir stat join load_file dir =
    elim (find_first (λ name. stat (join dir name)) config_files) [
      | none ↦ not_loaded no_default_file
      | some name ↦ load_file (join dir name)
    ]

-- The entries of the two variables whose detection returns no error.
unfoldable pub detect_git_variables : Fallible Str → Fallible Str → Dict Str
detect_git_variables tag branch =
    let tagged : Dict Str = elim tag [
      | fails _ ↦ []
      | returns t ↦ Dict.insert (codes "tag") (trim_space t) []
    ] in
    elim branch [
      | fails _ ↦ tagged
      | returns b ↦ Dict.insert (codes "branch") (trim_space b) tagged
    ]
