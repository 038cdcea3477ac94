-- ===== src/Runner/Agreement.antt =====
-- A dry run against the run that it stands for.
use buildfab.Base.{
  ℕ, Str, true, false, List, [], ◌∷◌, Option, none, some, str_eq, ◌+◌, if◌then◌else◌, Fallible,
  returns, fails, Fallible-cases, ◌≡◌, inl, inr, Bool-cases,
}
use buildfab.Config.{Action, Step}
use buildfab.Runner.Shell.{get_shell_command}
use buildfab.Runner.{Runner, select_variant, effective, get_runner}
use buildfab.Runner.Direct.{
  fail, run_built_in_action, run_custom_action, run_chosen, run_action_internal,
}
use buildfab.Runner.DryRun.{
  Counts, run_built_in_action_dry_run, run_custom_action_dry_run, chosen_dry_run,
  run_action_internal_dry_run, should_execute_step_by_condition, passes_filter,
}

module _ (r : Runner) where
  built_in-Agrees :
      (a : Action) (e : Str)
      → run_built_in_action_dry_run r a ≡ some e
      → run_built_in_action r a ≡ fail e
  unfolding run_built_in_action_dry_run run_built_in_action
  built_in-Agrees a e h = elim (Fallible-cases (get_runner r a.uses)) [
    | inl (x, is) ↦ rw (is, run_built_in_action) (cc (rw (is, run_built_in_action_dry_run) at h))
    | inr (x, is) ↦ cc (rw (is, run_built_in_action_dry_run) at h)
  ]

  custom-Agrees :
      (a : Action) (e : Str)
      → run_custom_action_dry_run r a ≡ some e
      → run_custom_action r a ≡ fail e
  unfolding run_custom_action_dry_run run_custom_action
  custom-Agrees a e h = elim (Bool-cases (str_eq a.run [])) [
    | inl empty ↦ rw (empty, run_custom_action) (cc (rw (empty, run_custom_action_dry_run) at h))
    | inr given ↦ elim (Fallible-cases (get_shell_command r.goos r.look_path a.shell)) [
      | inl (x, is) ↦
          rw (given, is, run_custom_action) (cc (rw (given, is, run_custom_action_dry_run) at h))
      | inr (x, is) ↦ cc (rw (given, is, run_custom_action_dry_run) at h)
    ]
  ]

  chosen-Agrees :
      (a : Action) (c : Option Action) (e : Str)
      → chosen_dry_run r c ≡ some e
      → run_chosen r a c ≡ fail e
  unfolding chosen_dry_run run_chosen
  chosen-Agrees a none e h = cc
  chosen-Agrees a (some c) e h = elim (Bool-cases (str_eq c.uses [])) [
    | inl empty ↦ rw empty (custom-Agrees c e (rw (empty, chosen_dry_run) at h))
    | inr given ↦ rw given (built_in-Agrees c e (rw (given, chosen_dry_run) at h))
  ]

  -- An error that the dry run of an action reports is the error with which the run of the action
  -- ends, before it makes any call on the callback.
  pub dry_run_error :
      (action : Action) (e : Str)
      → run_action_internal_dry_run r action ≡ some e
      → run_action_internal r action ≡ fail e
  unfolding run_action_internal_dry_run run_action_internal
  dry_run_error action e h = elim (Fallible-cases (select_variant r.evaluate action)) [
    | inl (x, is) ↦ rw (is, run_action_internal) (cc (rw (is, run_action_internal_dry_run) at h))
    | inr (v, is) ↦
        rw (is, run_action_internal)
          (chosen-Agrees action (effective action v) e (rw (is, run_action_internal_dry_run) at h))
  ]

  -- The steps that a dry run would execute, by the condition of each and by the filter.
  abbrev pub would_run : List Str → List Step → ℕ
  would_run only [] = 0
  would_run only (s ∷ ss) = elim (should_execute_step_by_condition r s) [
    | returns true ↦ (if passes_filter r only s then 1 else 0) + would_run only ss
    | returns false ↦ would_run only ss
    | fails _ ↦ would_run only ss
  ]

  total : Fallible Counts → ℕ
  total (returns c) = c.executed + c.skipped
  total (fails _) = 0

  ran : Fallible Counts → ℕ
  ran (returns c) = c.executed
  ran (fails _) = 0
