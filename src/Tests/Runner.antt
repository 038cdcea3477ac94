-- ===== src/Tests/Runner.antt =====
-- Actions that are executed, and that are run dry.
use buildfab.Base.{
  Str, codes, String, true, false, List, [], ◌∷◌, none, some, ◌≡◌, refl, str_eq, returns, All, ◌↔◌,
  is_some, subst, inl, inr, Bool-cases,
}
use buildfab.Base.Dict
use buildfab.Base.Strings.{str_contains, has_suffix, split, trim_space}
use buildfab.Config.{Action, Step}
use buildfab.Output.Status.{ok, error, warn, status_eq}
use buildfab.Executor.{Result}
use buildfab.Runner.{Runner, ActionRunner, get_runner, execute_action, select_from, effective}
use buildfab.Runner.Shell.{get_shell_command, user_command, shell_name}
use buildfab.Runner.Runs.{IsHonest, IsFinal}
use buildfab.Runner.Reports.{IsReport, execute_action-IsReport}
use buildfab.Runner.Direct.{fail, run_action_internal}
use buildfab.Runner.DryRun.{
  Counts, run_action_internal_dry_run, run_custom_action_dry_run, chosen_dry_run,
}
use buildfab.Runner.Agreement.{dry_run_error}
use buildfab.Runner.Verdict.{stage_error, IsHarmless, stage_error-none}
use buildfab.Actions.{
  Machine, default_registry, git_uncommitted, version_check, lines_of, any_line, is_uncommitted,
  has_code, check_version, is_valid_version, is_valid_rest, are_valid_parts, is_valid_version_part,
  is_numeric, is_digits,
}
use buildfab.Actions.Registry.{default_registry-IsHonest}
use buildfab.Dag.{Dag, built, build_dag}
use buildfab.Tests.Dag.{action, config, step, steps}

abbrev clean : Result
clean = record { name = []; status = warn; message = codes "dirty"; error = none; duration = 0 }

abbrev git : ActionRunner
git = record { run = (clean, none); description = codes "git" }

-- A Unix machine on which every command fails and no other shell than `sh` is found.
abbrev pub machine : Runner
machine = record {
  config = config;
  verbose = true;
  dry_run = false;
  variables = none;
  registry = some ((codes "git@modified", git) ∷ []);
  goos = codes "linux";
  look_path = λ s. false;
  evaluate = λ c. returns (str_eq c (codes "yes"));
  trim = λ s. s;
  replace_all = λ f s. s;
  run_command = λ s c.
      (codes "oops" ∷ [], codes "amid" ∷ [], codes "late" ∷ [], some (codes "exit status 1"));
  elapsed = 3;
}

honest : IsHonest machine
unfolding get_runner Dict.lookup
honest uses runner h = elim (Bool-cases (str_eq (codes "git@modified") uses)) [
  | inl is ↦
      let same : git ≡ runner = cc (rw (is, get_runner) at h) in
      subst
        (λ (x : ActionRunner).
          IsFinal x.run.0.status × (is_some x.run.1 ≡ true → status_eq x.run.0.status error ≡ true))
        same (tt, λ k. cc)
  | inr other ↦ cc (rw (other, get_runner) at h)
]

execute_action-IsReport_example :
    IsReport machine (codes "build") (execute_action machine (action "build") none)
execute_action-IsReport_example = execute_action-IsReport machine honest (action "build") none

abbrev fish : Action
fish = record {
  name = codes "fish";
  run = codes "true";
  uses = [];
  shell = codes "fish";
  variants = [];
}

abbrev no_fish : Str
no_fish =
    codes
      "shell configuration error for action fish: shell 'fish' not found in PATH. Please install it or use a different shell"

dry_fish : run_action_internal_dry_run machine fish ≡ some no_fish
unfolding run_action_internal_dry_run run_custom_action_dry_run get_shell_command str_eq
    str_contains has_suffix select_from chosen_dry_run effective user_command shell_name
dry_fish = refl

dry_run_error_example : run_action_internal machine fish ≡ fail no_fish
dry_run_error_example = dry_run_error machine fish no_fish dry_fish

abbrev guarded : String → String → Step
guarded name condition = record {
  action = codes name;
  require = [];
  on_error = [];
  if_condition = codes condition;
  only = codes "minor" ∷ [];
}

abbrev stage : List Step
stage = guarded "a" "yes" ∷ guarded "b" "no" ∷ step "c" [] ∷ []

abbrev counts : Counts
counts = record { executed = 1; skipped = 2 }

abbrev broken : Result
broken = record {
  name = codes "a";
  status = error;
  message = codes "m";
  error = none;
  duration = 1;
}

stage_error-none_example :
    (stage_error config (λ ks. ks) (λ ks. ks) steps (λ dag. broken ∷ []) false ≡ none) ↔ (
      (dag : Dag) × (build_dag config (λ ks. ks) (λ ks. ks) steps ≡ built dag)
      × All (IsHarmless steps) (broken ∷ [])
      × (false ≡ false))
stage_error-none_example =
    stage_error-none config (λ ks. ks) (λ ks. ks) steps (λ dag. broken ∷ []) false

-- git on a work tree with one file that is modified and not staged.
abbrev pub desk : Machine
desk = record {
  git_status = returns (codes " M a\n");
  git_diff = returns (codes "a\n");
  git_tags = returns (codes "v1.2.3\n");
  version_file = returns (codes "v1.2.3\n");
}

-- The space that stands before the first line's code is trimmed, and the file counts as staged.
git_uncommitted-desk : (git_uncommitted desk).0.status ≡ error
unfolding git_uncommitted lines_of any_line is_uncommitted has_code split trim_space str_eq
git_uncommitted-desk = refl

version_check-desk : (version_check desk).0.status ≡ ok
unfolding version_check check_version is_valid_version is_valid_rest are_valid_parts
    is_valid_version_part is_numeric is_digits split trim_space str_eq str_contains
version_check-desk = refl

abbrev equipped : Runner
equipped = record machine { registry = some (default_registry desk) }

default_registry-IsHonest_example : IsHonest equipped
default_registry-IsHonest_example = default_registry-IsHonest equipped desk refl
