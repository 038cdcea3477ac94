-- ===== src/Runner/Runs.antt =====
-- What an action reports to the step callback between its start and its completion.
use buildfab.Base.{
  Str, Bool, true, false, not, ◌&&◌, List, [], ◌∷◌, ◌++◌, Option, none, some, codes, str_eq, All,
  ◌≡◌, refl, inl, inr, arith, is_some, Bool-cases, if◌then◌else◌, returns, Fallible-cases,
}
use buildfab.Config.{Action, Step}
use buildfab.Output.Status.{StepStatus, pending, running, ok, warn, error, skipped, status_eq}
use buildfab.Output.Calls.{Call, step_start, step_complete, step_output, step_error}
use buildfab.Runner.Shell.{get_shell_command}
use buildfab.Runner.{
  Runner, ActionRunner, Outcome, get_runner, outputs, run_built_in_action_for_dag, after_command,
  run_custom_action_for_dag, run_effective, tolerates, apply_policy,
}

-- A call that reports what happens while the step runs.
abbrev pub IsProgress : Str → Call → Type 0
IsProgress name (step_start n) = ⊥
IsProgress name (step_complete n _ _ _) = ⊥
IsProgress name (step_output n _) = n ≡ name
IsProgress name (step_error n _) = n ≡ name

-- An output line.
abbrev pub IsOutput : Str → Call → Type 0
IsOutput name (step_start n) = ⊥
IsOutput name (step_complete n _ _ _) = ⊥
IsOutput name (step_output n _) = n ≡ name
IsOutput name (step_error n _) = ⊥

-- The statuses with which an action ends.
abbrev pub IsFinal : StepStatus → Type 0
IsFinal pending = ⊥
IsFinal running = ⊥
IsFinal ok = Unit
IsFinal warn = Unit
IsFinal error = Unit
IsFinal skipped = Unit

-- The runners of the registry end with a final status, and return an error only with that of an error.
abbrev pub IsHonest : Runner → Type 0
IsHonest r =
    (uses : Str) (runner : ActionRunner)
    → get_runner r uses ≡ returns runner
    → IsFinal runner.run.0.status
      × (is_some runner.run.1 ≡ true → status_eq runner.run.0.status error ≡ true)

-- A run behind the start and before the completion: progress, a final status, and an error exactly
-- with that of an error.
pub record IsRun (name : Str) (o : Outcome) : Type 0 where
  pub under_way : All (IsProgress name) o.calls
  pub lines_between : All (IsProgress name) o.between
  pub lines_late : All (IsOutput name) o.late
  pub final : IsFinal o.result.status
  pub blame : is_some o.error ≡ status_eq o.result.status error

outputs-All :
    (r : Runner) (name : Str) (lines : List Str) → All (IsProgress name) (outputs r name lines)
outputs-All r name [] = tt
outputs-All r name (l ∷ lines) = (refl, outputs-All r name lines)

late-All : (r : Runner) (name : Str) (lines : List Str) → All (IsOutput name) (outputs r name lines)
late-All r name [] = tt
late-All r name (l ∷ lines) = (refl, late-All r name lines)

late_if :
    (r : Runner) (name : Str) (lines : List Str) (b : Bool)
    → All (IsOutput name) (if b then outputs r name lines else [])
late_if r name lines true = late-All r name lines
late_if r name lines false = tt

outputs_if :
    (r : Runner) (name : Str) (lines : List Str) (b : Bool)
    → All (IsProgress name) (if b then outputs r name lines else [])
outputs_if r name lines true = outputs-All r name lines
outputs_if r name lines false = tt

output_if :
    (name text : Str) (b : Bool)
    → All (IsProgress name) (if b then step_output name text ∷ [] else [])
output_if name text true = (refl, tt)
output_if name text false = tt

blamed :
    (status : StepStatus) (err : Option Str) (text : Str)
    → (is_some err ≡ true → status_eq status error ≡ true)
    → is_some (if status_eq status error then some text else err) ≡ status_eq status error
blamed status err text h = elim (Bool-cases (status_eq status error)) [
  | inl bad ↦ rw bad refl
  | inr good ↦ rw good (ground (arith, h))
]

module _ (r : Runner) (honest : IsHonest r) where
  built_in-IsRun : (action : Action) → IsRun action.name (run_built_in_action_for_dag r action)
  unfolding run_built_in_action_for_dag status_eq
  built_in-IsRun action = elim (Fallible-cases (get_runner r action.uses)) [
    | inl (e, is) ↦
        rw (is, run_built_in_action_for_dag)
          (record { under_way = tt; lines_between = tt; lines_late = tt; final = tt; blame = refl })
    | inr (runner, is) ↦
        rw (is, run_built_in_action_for_dag)
          (record {
            lines_between = tt;
            lines_late = tt;
            under_way =
                output_if action.name runner.run.0.message
                  (r.verbose && not (str_eq runner.run.0.message []));
            final = (honest action.uses runner is).0;
            blame =
                blamed runner.run.0.status runner.run.1
                  (codes "built-in action failed: " ++ runner.run.0.message)
                  (honest action.uses runner is).1;
          })
  ]

  command-IsRun :
      (action : Action) (result : List Str × List Str × List Str × Option Str)
      → IsRun action.name (after_command r action result)
  unfolding after_command status_eq
  command-IsRun action (lines, middle, later, none) = record {
    lines_between = outputs_if r action.name middle r.verbose;
    lines_late = late_if r action.name later r.verbose;
    under_way = outputs_if r action.name lines r.verbose;
    final = tt;
    blame = refl;
  }
  command-IsRun action (lines, middle, later, some e) = record {
    lines_between = outputs_if r action.name middle r.verbose;
    lines_late = late_if r action.name later r.verbose;
    under_way = outputs_if r action.name lines r.verbose;
    final = tt;
    blame = refl;
  }

  custom-IsRun : (action : Action) → IsRun action.name (run_custom_action_for_dag r action)
  unfolding run_custom_action_for_dag status_eq
  custom-IsRun action = elim (Bool-cases (str_eq action.run [])) [
    | inl empty ↦
        rw empty
          (record { under_way = tt; lines_between = tt; lines_late = tt; final = tt; blame = refl })
    | inr given ↦
        rw given (elim (Fallible-cases (get_shell_command r.goos r.look_path action.shell)) [
          | inl (e, is) ↦ rw is (record {
            under_way = tt;
            lines_between = tt;
            lines_late = tt;
            final = tt;
            blame = refl;
          })
          | inr (shell, is) ↦ rw is (command-IsRun action _)
        ])
  ]

  pub effective-IsRun : (action : Action) → IsRun action.name (run_effective r action)
  unfolding run_effective
  effective-IsRun action = elim (Bool-cases (str_eq action.uses [])) [
    | inl empty ↦ rw empty (custom-IsRun action)
    | inr given ↦ rw given (built_in-IsRun action)
  ]

  pub policy-IsRun :
      (name : Str) (step : Option Step) (o : Outcome)
      → IsRun name o
      → IsRun name (apply_policy r step o)
  unfolding apply_policy status_eq
  policy-IsRun name step o h =
      elim (Bool-cases (status_eq o.result.status error && tolerates r step)) [
        | inl tolerated ↦ rw tolerated (record {
          under_way = h.under_way;
          lines_between = h.lines_between;
          lines_late = h.lines_late;
          final = tt;
          blame = refl;
        })
        | inr strict ↦ rw strict (record {
          under_way = h.under_way;
          lines_between = h.lines_between;
          lines_late = h.lines_late;
          final = h.final;
          blame = h.blame;
        })
      ]
