-- ===== src/Tests/Config.antt =====
-- Configurations that are validated, merged and included.
use buildfab.Base.{
  Str, codes, true, List, [], ◌∷◌, some, ◌≡◌, refl, str_eq, ◌⊎◌, returns, fails, contains, count,
  ◌≤◌,
}
use buildfab.Base.Dict
use buildfab.Base.Dict.{Dict}
use buildfab.Base.Strings.{str_contains, has_suffix, to_lower}
use buildfab.Config.{Action, Stage, Config}
use buildfab.Config.Validate.{
  validate, duplicate_action, validate_command, validate_actions, validate_any,
}
use buildfab.Config.Include.{
  FileSystem, PartialConfig, resolve_includes, load_included_configs, resolve_pattern, resolve_from,
  resolve_exact_path, add_files, resolve_glob_pattern, yaml_files,
}
use buildfab.Config.Resolved.{IsNamed, load_failed, resolve_includes-load}
use buildfab.Config.Loading.{
  Files, refused, circular, process_includes, each_pattern, process_include_pattern,
  process_exact_file, load_and_merge_file,
}
use buildfab.Config.Loaded.{IsKept, process_includes-IsKept}
use buildfab.Tests.Dag.{action, config, steps}

abbrev stages : Dict Stage
stages = (codes "all", record { steps = steps }) ∷ []

abbrev pub staged : Config
staged = record config { stages = stages }

abbrev twice : Config
twice = record config { actions = action "build" ∷ action "build" ∷ [] }

validate-twice : validate (λ s. s) twice ≡ some (duplicate_action (codes "build"))
unfolding validate validate_actions validate_command contains str_eq validate_any
validate-twice = refl

abbrev other : Action
other = record { name = codes "lint"; run = codes "vet"; uses = []; shell = []; variants = [] }

abbrev pub files : FileSystem
files = record {
  exists = λ p. true;
  is_abs = λ p. true;
  join_base = λ p. p;
  dir = λ p. [];
  glob = λ p. returns (codes "a.yml" ∷ codes "b.txt" ∷ []);
  read = λ p. returns (record { actions = other ∷ []; stages = [] });
}

abbrev patterns : List Str
patterns = codes "a.yml" ∷ codes "*" ∷ []

abbrev found : List Str
found = codes "a.yml" ∷ []

resolved : resolve_includes files patterns ≡ returns found
unfolding resolve_from resolve_pattern resolve_exact_path add_files resolve_glob_pattern yaml_files
    contains str_eq str_contains has_suffix to_lower
resolved = refl

resolve_includes-load_example :
    ((n : Str) → count found n ≤ 1)
    × ((n : Str) → contains found n ≡ true → IsNamed files patterns n)
    × (((c : PartialConfig) × (load_included_configs files found ≡ returns c))
        ⊎ ((path : Str) × (e : Str) × (contains found path ≡ true)
            × (files.read path ≡ fails e)
            × (load_included_configs files found ≡ fails (load_failed path e))))
resolve_includes-load_example = resolve_includes-load files patterns found resolved

-- A file that includes itself.
abbrev loop : Config
loop = record config { include = codes "a.yml" ∷ [] }

abbrev disk : Files
disk = record {
  exists = λ p. contains (codes "a.yml" ∷ []) p;
  is_abs = λ p. true;
  join = λ b p. p;
  dir = λ p. [];
  glob = λ p. returns [];
  read = λ p. returns loop;
}

process_includes-loop :
    process_includes disk (codes "a.yml" ∷ []) loop [] ≡ refused (circular (codes "a.yml"))
unfolding process_includes contains str_eq str_contains each_pattern process_include_pattern
    process_exact_file load_and_merge_file
process_includes-loop = refl

process_includes-IsKept_example : IsKept loop (process_includes disk (codes "a.yml" ∷ []) loop [])
process_includes-IsKept_example =
    process_includes-IsKept disk (codes "a.yml" ∷ []) (λ p h. h) loop []
