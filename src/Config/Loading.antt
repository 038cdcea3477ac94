-- ===== src/Config/Loading.antt =====
-- pkg/buildfab/config.go: `processIncludes` and what it calls. A file that is being processed stands in
-- `visited`; since it was not there before, removing it afterwards restores the map, so the map is passed
-- down only. Files, paths and the parser of YAML are parameters. Every call of `processExactFile` within
-- another takes one unit of fuel.
use buildfab.Base.{
  ℕ, zero, suc, Str, codes, Bool, List, [], ◌∷◌, contains, length, if◌then◌else◌, Fallible, returns,
  fails,
}
use buildfab.Base.Strings.{str_contains}
use buildfab.Config.{Config}
use buildfab.Config.Merge.{merge_config}
use buildfab.Config.Include.{is_yaml}

pub record Files : Type 0 where
  pub exists : Str → Bool
  pub is_abs : Str → Bool
  pub join : Str → Str → Str
  pub dir : Str → Str
  pub glob : Str → Fallible (List Str)
  pub read : Str → Fallible Config

-- `out_of_fuel` is no outcome of the program; `Config.Loaded.process_includes-IsKept` shows that it does
-- not arise.
pub data IncludeError : Type 0 where
  circular : Str → IncludeError
  missing_file : Str → IncludeError
  missing_directory : Str → IncludeError
  invalid_glob : Str → Str → IncludeError
  unreadable : Str → Str → IncludeError
  out_of_fuel : IncludeError

pub data Included : Type 0 where
  included : Config → Included
  refused : IncludeError → Included

abbrev pub then_with : Included → (Config → Included) → Included
then_with (included c) f = f c
then_with (refused e) f = refused e

module _ (fs : Files) where
  -- The loop over the matches of a glob pattern.
  unfoldable pub each_match : (Config → Str → Included) → Config → List Str → Included
  each_match exact c [] = included c
  each_match exact c (path ∷ paths) =
      then_with (if is_yaml path then exact c path else included c)
        (λ c'. each_match exact c' paths)

  unfoldable pub process_glob_pattern : (Config → Str → Included) → Config → Str → Included
  process_glob_pattern exact c path =
      if fs.exists (fs.dir path)
      then elim (fs.glob path) [
        | fails e ↦ refused (invalid_glob path e)
        | returns matches ↦ each_match exact c matches
      ]
      else refused (missing_directory (fs.dir path))

  unfoldable pub process_include_pattern : (Config → Str → Included) → Str → Config → Str → Included
  process_include_pattern exact base c name =
      let path = if fs.is_abs name then name else fs.join base name in
      if str_contains name (codes "*") then process_glob_pattern exact c path else exact c path

  -- The loop over the patterns of a configuration in the directory `base`.
  unfoldable pub each_pattern : (Config → Str → Included) → Str → Config → List Str → Included
  each_pattern exact base c [] = included c
  each_pattern exact base c (name ∷ names) =
      then_with (process_include_pattern exact base c name) (λ c'. each_pattern exact base c' names)

  unfoldable pub load_and_merge_file : (Config → Str → Included) → Config → Str → Included
  load_and_merge_file exact c path = elim (fs.read path) [
    | fails e ↦ refused (unreadable path e)
    | returns found ↦
        then_with (each_pattern exact (fs.dir path) c found.include)
          (λ c'. included (merge_config c' found.actions found.stages))
  ]

  unfoldable pub process_exact_file : ℕ → List Str → Config → Str → Included
  process_exact_file zero visited c path = refused out_of_fuel
  process_exact_file (suc fuel) visited c path =
      let exact = process_exact_file fuel (path ∷ visited) in
      if contains visited path
      then refused (circular path)
      else if fs.exists path
      then load_and_merge_file exact c path
      else refused (missing_file path)

  -- `known` bounds the files that exist.
  unfoldable pub process_includes : List Str → Config → Str → Included
  process_includes known c base =
      each_pattern (process_exact_file (suc (length known)) []) base c c.include
