-- ===== src/Actions/Internal.antt =====
-- The registry of internal/actions/registry.go. Its two actions on versions, with the functions that
-- they call, are written there as they are in pkg/buildfab/actions.go; its three actions on the
-- repository end with a warning and no error.
use buildfab.Base.{
  Str, codes, not, [], ◌∷◌, ◌++◌, Option, none, str_eq, if◌then◌else◌, returns, fails,
}
use buildfab.Base.Dict
use buildfab.Base.Dict.{Dict}
use buildfab.Output.Status.{warn}
use buildfab.Executor.{Result}
use buildfab.Runner.{ActionRunner}
use buildfab.Actions.{
  Machine, good, bad, any_line, lines_of, is_untracked, is_uncommitted, version_check,
  version_check_greatest,
}

abbrev pub warned : Str → Result × Option Str
warned message =
    (record { name = []; status = warn; message = message; error = none; duration = 0 }, none)

unfoldable pub warn_untracked : Machine → Result × Option Str
warn_untracked m = elim m.git_status [
  | fails e ↦ bad (codes "Failed to check git status") (codes "git status failed: " ++ e)
  | returns output ↦
      if any_line is_untracked (lines_of output)
      then warned (codes "Untracked files found, to check run:\n    git status")
      else good (codes "No untracked files found")
]

unfoldable pub warn_uncommitted : Machine → Result × Option Str
warn_uncommitted m = elim m.git_status [
  | fails e ↦ bad (codes "Failed to check git status") (codes "git status failed: " ++ e)
  | returns output ↦
      if any_line is_uncommitted (lines_of output)
      then warned (codes "Uncommitted changes found, to check run:\n    git status")
      else good (codes "No uncommitted changes found")
]

unfoldable pub warn_modified : Machine → Result × Option Str
warn_modified m = elim m.git_diff [
  | fails e ↦ bad (codes "Failed to check git diff") (codes "git diff failed: " ++ e)
  | returns output ↦
      if any_line (λ l. not (str_eq l [])) (lines_of output)
      then warned (codes "There are modified files, to check run:\n    git status")
      else good (codes "No modified files found")
]

-- `Register`
unfoldable pub register : Str → ActionRunner → Dict ActionRunner → Dict ActionRunner
register name runner registry = Dict.insert name runner registry

-- `New`
unfoldable pub new_registry : Machine → Dict ActionRunner
unfolding register
new_registry m =
    register (codes "version@check-greatest")
      (record {
        run = version_check_greatest m;
        description = codes "Check if current version is the greatest";
      })
      (register (codes "version@check")
        (record { run = version_check m; description = codes "Validate version format" })
        (register (codes "git@modified")
          (record { run = warn_modified m; description = codes "Check for modified files" })
          (register (codes "git@uncommitted")
            (record {
              run = warn_uncommitted m;
              description = codes "Check for uncommitted changes";
            })
            (register (codes "git@untracked")
              (record { run = warn_untracked m; description = codes "Check for untracked files" })
              []))))

-- `ListActions`
unfoldable pub list_actions : Dict ActionRunner → Dict Str
list_actions [] = []
list_actions ((name, runner) ∷ registry) =
    Dict.insert name runner.description (list_actions registry)
