-- ===== src/Simple/Skips.antt =====
-- The steps that a stage's run skips for a failed requirement: each of them has a result in the end.
use buildfab.Base.{
  ℕ, Str, Bool, true, false, not, ◌||◌, List, [], ◌∷◌, ◌++◌, Option, some, ◌≡◌, refl, sym, ap, ◌∙◌,
  arith, contains, contains-append, contains-cons, str_eq_refl, All, Bool-cases, inl, inr,
}
use buildfab.Config.{Step, Stage, Config, get_stage}
use buildfab.Output.Status.{skipped, status_eq}
use buildfab.Output.Calls.{Call}
use buildfab.Simple.{
  StepResult, collect, collect_all, executed_steps, failed_steps, requires_failed, skipped_from,
  get_skipped_steps, report_skipped, run_stage,
}

executed_steps-append :
    (rs qs : List StepResult) → executed_steps (rs ++ qs) ≡ executed_steps rs ++ executed_steps qs
unfolding executed_steps
executed_steps-append [] qs = refl
executed_steps-append (r ∷ rs) qs = ap (λ l. r.step_name ∷ l) (executed_steps-append rs qs)

failed_steps-append :
    (rs qs : List StepResult) → failed_steps (rs ++ qs) ≡ failed_steps rs ++ failed_steps qs
unfolding failed_steps
failed_steps-append [] qs = refl
failed_steps-append (r ∷ rs) qs = ground (arith, failed_steps-append rs qs)

append-nil : (xs : List Str) → xs ++ [] ≡ xs
append-nil [] = refl
append-nil (x ∷ xs) = ap (λ l. x ∷ l) (append-nil xs)

append-cons : (xs ys : List Str) (y : Str) → (xs ++ y ∷ []) ++ ys ≡ xs ++ y ∷ ys
append-cons [] ys y = refl
append-cons (x ∷ xs) ys y = ap (λ l. x ∷ l) (append-cons xs ys y)

-- Reporting skipped steps adds their names to the executed ones, and none to the failed ones.
collect_all-report_skipped :
    (rs : List StepResult) (names : List Str)
    → (executed_steps (collect_all rs (report_skipped names)) ≡ executed_steps rs ++ names)
      × (failed_steps (collect_all rs (report_skipped names)) ≡ failed_steps rs)
unfolding collect_all collect report_skipped executed_steps failed_steps status_eq
collect_all-report_skipped rs [] = (sym (append-nil (executed_steps rs)), refl)
collect_all-report_skipped rs (name ∷ names) =
    let one : StepResult = record { step_name = name; status = skipped; duration = 0 } in
    let (e, f) = collect_all-report_skipped (rs ++ one ∷ []) names in
    (
      e
          ∙ ap (λ l. l ++ names) (executed_steps-append rs (one ∷ []))
          ∙ append-cons (executed_steps rs) names name,
      f ∙ failed_steps-append rs (one ∷ []) ∙ append-nil (failed_steps rs),
    )

-- Those that a look over the steps names were not executed.
skipped_from-new :
    (executed failed : List Str) (ss : List Step)
    → All (λ n. contains executed n ≡ false) (skipped_from executed failed ss)
unfolding skipped_from
skipped_from-new executed failed [] = tt
skipped_from-new executed failed (s ∷ ss) = elim (Bool-cases (contains executed s.action)) [
  | inl there ↦ rw (there, skipped_from) (skipped_from-new executed failed ss)
  | inr new ↦ elim (Bool-cases (requires_failed s.require failed)) [
    | inl skip ↦ rw (new, skip, skipped_from) (new, skipped_from-new executed failed ss)
    | inr runs ↦ rw (new, runs, skipped_from) (skipped_from-new executed failed ss)
  ]
]

-- A step has a result, or requires no failed step.
unfoldable pub settled : List StepResult → Step → Bool
unfolding requires_failed failed_steps executed_steps
settled results s =
    contains (executed_steps results) s.action
    || not (requires_failed s.require (failed_steps results))

skipped_from-covers :
    (executed failed names : List Str) (ss : List Step)
    → ((n : Str) → contains (skipped_from executed failed ss) n ≡ true → contains names n ≡ true)
    → All
        (λ s.
          (contains (executed ++ names) s.action || not (requires_failed s.require failed)) ≡ true)
        ss
unfolding skipped_from
skipped_from-covers executed failed names [] within = tt
skipped_from-covers executed failed names (s ∷ ss) within = (
  elim (Bool-cases (requires_failed s.require failed)) [
    | inr runs ↦ rw runs (ground arith)
    | inl skip ↦ elim (Bool-cases (contains executed s.action)) [
      | inl there ↦ rw (contains-append, there) refl
      | inr new ↦
          rw (contains-append, new)
            (rw
              (within s.action
                (rw (new, skip, skipped_from) (rw (contains-cons, str_eq_refl) refl)))
              refl)
    ]
  ],
  skipped_from-covers executed failed names ss (λ n h.
      within n (ground (arith, contains-cons s.action (skipped_from executed failed ss) n))),
)

module _ (config : Config) (millis : ℕ → Str) (elapsed : ℕ) (cancelled : Bool) where
  run_stage-results :
      (stage_name : Str) (stage : Stage) (calls : List Call) (err : Option Str)
      → get_stage config stage_name ≡ some stage
      → (run_stage config millis elapsed cancelled stage_name calls err).results
        ≡ collect_all
            (collect_all [] calls)
            (report_skipped (get_skipped_steps config stage_name (collect_all [] calls)))
  unfolding run_stage
  run_stage-results stage_name stage calls err is = rw (is, run_stage) refl

  -- After RunStage of a stage that exists, whatever the runner reports and returns, every step of
  -- the stage has a result or requires no step whose result is an error; and the steps that it
  -- reports as skipped had no result before.
  pub run_stage-settled :
      (stage_name : Str) (stage : Stage) (calls : List Call) (err : Option Str)
      → get_stage config stage_name ≡ some stage
      → All
          (λ s.
            settled (run_stage config millis elapsed cancelled stage_name calls err).results s
            ≡ true)
          stage.steps
        × All
            (λ n. contains (executed_steps (collect_all [] calls)) n ≡ false)
            (get_skipped_steps config stage_name (collect_all [] calls))
  unfolding settled get_skipped_steps
  run_stage-settled stage_name stage calls err is =
      let rs = collect_all [] calls in
      let names = skipped_from (executed_steps rs) (failed_steps rs) stage.steps in
      let (e, f) = collect_all-report_skipped rs names in
      let which : get_skipped_steps config stage_name rs ≡ names =
        rw (is, get_skipped_steps) refl in
      let all =
        run_stage-results stage_name stage calls err is
        ∙ ap (λ l. collect_all rs (report_skipped l)) which in
      (
        rw (all, e, f)
            (skipped_from-covers (executed_steps rs) (failed_steps rs) names stage.steps
              (λ n h. h)),
        rw which (skipped_from-new (executed_steps rs) (failed_steps rs) stage.steps),
      )
