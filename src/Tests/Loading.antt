-- ===== src/Tests/Loading.antt =====
-- Configurations that are loaded, and variables that are resolved.
use buildfab.Base.{
  ℕ, zero, suc, Str, codes, true, false, List, [], ◌∷◌, ◌++◌, some, ◌≡◌, refl, str_eq, str_eq_sym,
  ◌⊎◌, returns, Bool, arith, contains, All,
}
use buildfab.Base.Dict
use buildfab.Base.Dict.{Dict}
use buildfab.Base.Strings.{has_prefix, trim_space, trim_left}
use buildfab.Config.{Action}
use buildfab.Config.Loading.{Files}
use buildfab.Config.Loader.{
  no_default_file, not_loaded, find_first, default_paths, config_files, load_config, load,
  load_from_dir,
}
use buildfab.Config.Accepted.{IsChosen, IsRead, load_config-IsRead}
use buildfab.Config.FromDir.{IsLoad, load_from_dir-IsLoad}
use buildfab.Config.Variables.{
  str_index, out_of_fuel, resolved, unresolved, resolve_reference, resolve_round, resolve_string,
  resolve_variables,
}
use buildfab.Config.Closed.{dollars, Settles, resolve_string-Settles}
use buildfab.Config.Resolving.{resolve_text, IsResolution, resolve_variables-IsResolution}
use buildfab.Tests.Config.{staged, files}
use buildfab.Tests.Dag.{action}

abbrev variables : Dict Str
variables = (codes "tag", codes "v1") ∷ []

abbrev text : Str
text = codes "git show ${{ tag }}"

plain : All (λ e. dollars (e.1) ≡ 0) variables
unfolding dollars
plain = (refl, tt)

few : 1 ≡ dollars text
unfolding dollars
few = refl

resolve_text-tag : resolve_string 2 variables text ≡ resolved (codes "git show v1")
unfolding resolve_string resolve_round resolve_reference str_index has_prefix trim_space trim_left
    Dict.lookup str_eq
resolve_text-tag = refl

resolve_string-Settles_example : Settles variables (resolve_text variables text)
resolve_string-Settles_example =
    resolve_string-Settles variables plain (suc (dollars text)) text (omega arith)

-- A variable that refers to itself: the loop has no end.
abbrev itself : Dict Str
itself = (codes "x", codes "${{x}}") ∷ []

endless : (fuel : ℕ) → resolve_string fuel itself (codes "${{x}}") ≡ unresolved out_of_fuel
unfolding resolve_string resolve_round resolve_reference str_index has_prefix trim_space trim_left
    Dict.lookup str_eq
endless zero = refl
endless (suc fuel) = endless fuel

abbrev commands : List Action
commands =
    record (action "show") { run = text } ∷ record (action "none") { run = codes "${{ x }}" } ∷ []

resolve_variables-IsResolution_example :
    IsResolution variables commands (resolve_variables (resolve_text variables) commands)
resolve_variables-IsResolution_example = resolve_variables-IsResolution variables plain commands

abbrev disk : Files
disk = record {
  exists = λ p. str_eq p (codes "project.yml");
  is_abs = λ p. true;
  join = λ b p. b ++ p;
  dir = λ p. codes ".";
  glob = λ p. returns [];
  read = λ p. returns staged;
}

abbrev is_there : Str → Bool
is_there = λ p. str_eq p (codes "project.yml")

present :
    (path : Str)
    → str_eq path (codes "project.yml") ≡ true
    → contains (codes "project.yml" ∷ []) path ≡ true
unfolding contains
present path h = ground (arith, h, str_eq_sym path (codes "project.yml"))

abbrev nothing : Str
nothing = []

load_config-IsRead_example :
    ((nothing ≡ [])
      × All (λ p. is_there p ≡ false) default_paths
      × (load_config disk (codes "project.yml" ∷ []) (λ s. s) is_there nothing
          ≡ not_loaded no_default_file))
    ⊎ ((p : Str) × IsChosen is_there nothing p
        × IsRead disk
            (λ s. s)
            (codes "project.yml" ∷ [])
            p
            (load_config disk (codes "project.yml" ∷ []) (λ s. s) is_there nothing))
load_config-IsRead_example =
    load_config-IsRead disk (λ s. s) (codes "project.yml" ∷ []) present (λ p. (λ h. cc)) is_there
      nothing

load_from_dir-IsLoad_example :
    (All (λ name. is_there name ≡ false) config_files
      × (load_from_dir is_there
            (λ d n. n)
            (λ path. load files (λ s. s) (λ p. returns staged) path)
            []
          ≡ not_loaded no_default_file))
    ⊎ ((name : Str) × (find_first is_there config_files ≡ some name)
        × (is_there name ≡ true)
        × (contains config_files name ≡ true)
        × IsLoad files
            (λ s. s)
            (λ p. returns staged)
            name
            (load_from_dir is_there
              (λ d n. n)
              (λ path. load files (λ s. s) (λ p. returns staged) path)
              []))
load_from_dir-IsLoad_example =
    load_from_dir-IsLoad (λ d. files) (λ s. s) (λ p. returns staged) is_there (λ d n. n) []
