-- ===== src/Actions.antt =====
-- The built-in actions and their registry: pkg/buildfab/actions.go. What git prints and what the VERSION
-- file holds are parameters.
pub mod Registry
pub mod Internal
pub mod Softer
use buildfab.Base.{
  ℕ, zero, suc, Str, codes, Bool, true, false, not, ◌&&◌, ◌||◌, List, [], ◌∷◌, ◌++◌, Option, none,
  some, str_eq, length, take, leb, ltb, ◌==◌, if◌then◌else◌, Fallible, returns, fails,
}
use buildfab.Base.Dict
use buildfab.Base.Dict.{Dict}
use buildfab.Base.Strings.{str_contains, split, trim_space, to_lower}
use buildfab.Output.Status.{StepStatus, ok, error}
use buildfab.Executor.{Result}
use buildfab.Runner.{ActionRunner}

pub record Machine : Type 0 where
  pub git_status : Fallible Str
  pub git_diff : Fallible Str
  pub git_tags : Fallible Str
  pub version_file : Fallible Str

abbrev pub good : Str → Result × Option Str
good message =
    (record { name = []; status = ok; message = message; error = none; duration = 0 }, none)

abbrev pub bad : Str → Str → Result × Option Str
bad message err =
    (record { name = []; status = error; message = message; error = none; duration = 0 }, some err)

-- The lines of an output.
unfoldable pub lines_of : Str → List Str
lines_of output = split (trim_space output) (10 ∷ [])

-- `len(line) >= 2 && line[:2] == code`
unfoldable pub has_code : Str → Str → Bool
has_code code line = leb 2 (length line) && str_eq (take 2 line) code

unfoldable pub any_line : (Str → Bool) → List Str → Bool
any_line test [] = false
any_line test (l ∷ ls) = test l || any_line test ls

unfoldable pub is_untracked : Str → Bool
is_untracked line = has_code (codes "??") line

unfoldable pub is_uncommitted : Str → Bool
is_uncommitted line =
    has_code (codes "M ") line
    || (has_code (codes "A ") line
        || (has_code (codes "D ") line
            || (has_code (codes "R ") line || has_code (codes "C ") line)))

unfoldable pub git_untracked : Machine → Result × Option Str
git_untracked m = elim m.git_status [
  | fails e ↦ bad (codes "Failed to check git status") (codes "git status failed: " ++ e)
  | returns output ↦
      if any_line is_untracked (lines_of output)
      then bad (codes "Untracked files found, to check run:\n      git status")
          (codes "untracked files found")
      else good (codes "No untracked files found")
]

unfoldable pub git_uncommitted : Machine → Result × Option Str
git_uncommitted m = elim m.git_status [
  | fails e ↦ bad (codes "Failed to check git status") (codes "git status failed: " ++ e)
  | returns output ↦
      if any_line is_uncommitted (lines_of output)
      then bad (codes "Uncommitted changes found, to check run:\n      git status")
          (codes "uncommitted changes found")
      else good (codes "No uncommitted changes found")
]

unfoldable pub git_modified : Machine → Result × Option Str
git_modified m = elim m.git_diff [
  | fails e ↦ bad (codes "Failed to check git diff") (codes "git diff failed: " ++ e)
  | returns output ↦
      if any_line (λ l. not (str_eq l [])) (lines_of output)
      then bad (codes "There are modified files, to check run:\n      git status")
          (codes "modified files found")
      else good (codes "No modified files found")
]

unfoldable pub is_digits : Str → Bool
is_digits [] = true
is_digits (c ∷ cs) = leb 48 c && (leb c 57 && is_digits cs)

unfoldable pub is_numeric : Str → Bool
is_numeric s = if str_eq s [] then false else is_digits s

unfoldable pub is_valid_version_part : Str → Bool
is_valid_version_part part =
    is_numeric part
    || (str_contains (to_lower part) (codes "alpha")
        || (str_contains (to_lower part) (codes "beta")
            || (str_contains (to_lower part) (codes "rc")
                || str_contains (to_lower part) (codes "dev"))))

unfoldable pub are_valid_parts : List Str → Bool
are_valid_parts [] = true
are_valid_parts (p ∷ ps) = not (str_eq p []) && (is_valid_version_part p && are_valid_parts ps)

-- Behind the first byte.
unfoldable pub is_valid_rest : Str → Bool
is_valid_rest rest =
    str_contains rest (codes ".")
    && (leb 3 (length (split rest (codes "."))) && are_valid_parts (split rest (codes ".")))

unfoldable pub is_valid_version : Str → Bool
is_valid_version [] = false
is_valid_version (c ∷ rest) = if c == 118 then is_valid_rest rest else false

unfoldable pub check_version : Str → Result × Option Str
check_version version =
    if str_eq version []
    then bad (codes "VERSION file is empty") (codes "VERSION file is empty")
    else if not (is_valid_version version)
    then bad (codes "Invalid version format: " ++ version)
        (codes "invalid version format: " ++ version)
    else good (codes "Version format is valid: " ++ version)

unfoldable pub version_check : Machine → Result × Option Str
version_check m = elim m.version_file [
  | fails e ↦ bad (codes "VERSION file not found") (codes "VERSION file not found: " ++ e)
  | returns text ↦ check_version (trim_space text)
]

-- The tags, the greatest first.
unfoldable pub compare_greatest : Str → List Str → Result × Option Str
compare_greatest current [] = good (codes "No tags found, current version is greatest")
compare_greatest current (tag ∷ tags) =
    if length tags == 0 && str_eq tag []
    then good (codes "No tags found, current version is greatest")
    else if str_eq current tag
    then good (codes "Current version " ++ (current ++ codes " is the greatest"))
    else bad
        (codes "Current version "
          ++ (current ++ (codes " is not the greatest. Greatest is " ++ tag)))
        (codes "current version is not the greatest")

unfoldable pub check_greatest : Str → Fallible Str → Result × Option Str
check_greatest current (fails e) =
    bad (codes "Failed to get git tags") (codes "git tag failed: " ++ e)
check_greatest current (returns output) = compare_greatest current (lines_of output)

unfoldable pub version_check_greatest : Machine → Result × Option Str
version_check_greatest m = elim m.version_file [
  | fails e ↦ bad (codes "VERSION file not found") (codes "VERSION file not found: " ++ e)
  | returns text ↦ check_greatest (trim_space text) m.git_tags
]

abbrev runner : Result × Option Str → Str → ActionRunner
runner run description = record { run = run; description = description }

-- `NewDefaultActionRegistry`
unfoldable pub default_registry : Machine → Dict ActionRunner
default_registry m =
    (codes "git@untracked", runner (git_untracked m) (codes "Check for untracked files"))
    ∷ (codes "git@uncommitted", runner (git_uncommitted m) (codes "Check for uncommitted changes"))
    ∷ (codes "git@modified", runner (git_modified m) (codes "Check for modified files"))
    ∷ (codes "version@check", runner (version_check m) (codes "Validate version format"))
    ∷ (
      codes "version@check-greatest",
      runner (version_check_greatest m) (codes "Check if current version is the greatest"),
    )
    ∷ []
