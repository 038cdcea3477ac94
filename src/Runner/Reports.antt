-- ===== src/Runner/Reports.antt =====
-- What an action reports to the step callback while it is executed.
use buildfab.Base.{
  Str, List, [], ◌∷◌, ◌++◌, Option, none, some, All, ◌≡◌, refl, sym, ◌∙◌, ap, inl, inr, is_some,
  Option-cases, Fallible-cases, subst,
}
use buildfab.Config.{ActionVariant, Action, Step}
use buildfab.Output.Status.{StepStatus, pending, running, ok, warn, error, skipped, status_eq}
use buildfab.Output.Calls.{Call, step_start, step_complete, step_error}
use buildfab.Executor.{Result}
use buildfab.Runner.{
  Runner, Outcome, select_variant, effective, run_effective, apply_policy, report, execute_action,
  reported, amid,
}
use buildfab.Runner.Runs.{
  IsProgress, IsOutput, IsFinal, IsHonest, IsRun, effective-IsRun, policy-IsRun,
}

-- A start, then progress, then one completion, then late output lines, all by the same name.
pub record IsReport (r : Runner) (name : Str) (o : Outcome) : Type 0 where
  pub progress : List Call
  pub message : Str
  pub late : List Call
  pub calls :
      o.calls
      ≡ step_start name ∷ (progress ++ step_complete name o.result.status message r.elapsed ∷ late)
  pub under_way : All (IsProgress name) progress
  pub lines_late : All (IsOutput name) late
  pub final : IsFinal o.result.status
  pub blame : is_some o.error ≡ status_eq o.result.status error

All-append :
    (name : Str) (xs ys : List Call)
    → All (IsProgress name) xs
    → All (IsProgress name) ys
    → All (IsProgress name) (xs ++ ys)
All-append name [] ys h k = k
All-append name (x ∷ xs) ys h k = (h.0, All-append name xs ys h.1 k)

append_assoc : (xs ys zs : List Call) → xs ++ (ys ++ zs) ≡ (xs ++ ys) ++ zs
append_assoc [] ys zs = refl
append_assoc (x ∷ xs) ys zs = ap (λ (l : List Call). x ∷ l) (append_assoc xs ys zs)

module _ (r : Runner) (honest : IsHonest r) where
  -- The calls of `report` are progress and then the completion.
  record Tail (name : Str) (status : StepStatus) (calls : List Call) : Type 0 where
    progress : List Call
    message : Str
    split : calls ≡ progress ++ step_complete name status message r.elapsed ∷ []
    under_way : All (IsProgress name) progress

  report-Tail :
      (name : Str) (result : Result) (err : Option Str) (between : List Call) (status : StepStatus)
      → result.status ≡ status
      → IsFinal status
      → is_some err ≡ status_eq status error
      → All (IsProgress name) between
      → Tail name status (amid r between (report r name result err))
  unfolding report status_eq amid
  report-Tail name result none between ok is final blame all =
      rw is (record { progress = between; message = _; split = refl; under_way = all })
  report-Tail name result (some e) between ok is final blame all = cc
  report-Tail name result err between pending is final blame all = absurd final
  report-Tail name result err between running is final blame all = absurd final
  report-Tail name result err between warn is final blame all =
      rw is (record { progress = between; message = _; split = refl; under_way = all })
  report-Tail name result err between skipped is final blame all =
      rw is (record { progress = between; message = _; split = refl; under_way = all })
  report-Tail name result none between error is final blame all = cc
  report-Tail name result (some e) between error is final blame all = rw is (record {
    progress = step_error name e ∷ between;
    message = _;
    split = refl;
    under_way = (refl, all);
  })

  reported-IsReport :
      (name : Str) (o : Outcome) → IsRun name o → IsReport r name (reported r name o)
  reported-IsReport name o h =
      let t =
        report-Tail name o.result o.error o.between o.result.status refl h.final h.blame
          h.lines_between in
      record {
        progress = o.calls ++ t.progress;
        message = t.message;
        late = o.late;
        lines_late = h.lines_late;
        calls =
            ap (λ (l : List Call). step_start name ∷ l)
              (ap (λ (l : List Call). o.calls ++ (l ++ o.late)) t.split
                ∙ (ap (λ (l : List Call). o.calls ++ l)
                      (sym (
                        append_assoc t.progress
                          (step_complete name o.result.status t.message r.elapsed ∷ []) o.late))
                    ∙ append_assoc o.calls t.progress _));
        under_way = All-append name o.calls t.progress h.under_way t.under_way;
        final = h.final;
        blame = h.blame;
      }

  effective-name :
      (action chosen : Action) (variant : Option ActionVariant)
      → effective action variant ≡ some chosen
      → chosen.name ≡ action.name
  unfolding effective
  effective-name action chosen (some v) h = cc
  effective-name action chosen none h = unmatched action.variants refl h
    where
      unmatched :
          (vs : List ActionVariant)
          → action.variants ≡ vs
          → effective action none ≡ some chosen
          → chosen.name ≡ action.name
      unmatched [] is h = cc (rw (is, effective) at h)
      unmatched (v ∷ vs) is h = cc (rw (is, effective) at h)

  -- If the runners of the registry end with a final status and return an error only with that of an
  -- error, executing an action of a step makes calls under the name of the action only: the start
  -- first, output lines and errors, one completion, with the status of the result, and behind it
  -- nothing but output lines; this status is a final one and is that of an error exactly if an error
  -- is returned.
  pub execute_action-IsReport :
      (action : Action) (step : Option Step) → IsReport r action.name (execute_action r action step)
  unfolding execute_action status_eq
  execute_action-IsReport action step = elim (Fallible-cases (select_variant r.evaluate action)) [
    | inl (e, is) ↦
        rw (is, execute_action)
          (record {
            progress = [];
            message = e;
            calls = refl;
            late = [];
            lines_late = tt;
            under_way = tt;
            final = tt;
            blame = refl;
          })
    | inr (variant, is) ↦
        rw (is, execute_action)
          (elim (Option-cases (effective action variant)) [
            | inl unmatched ↦
                rw (unmatched, execute_action)
                  (record {
                    progress = [];
                    message = _;
                    calls = refl;
                    late = [];
                    lines_late = tt;
                    under_way = tt;
                    final = tt;
                    blame = refl;
                  })
            | inr (chosen, matched) ↦
                rw (matched, execute_action)
                  (reported-IsReport action.name (apply_policy r step (run_effective r chosen)) (
                    policy-IsRun r honest action.name step (run_effective r chosen) (
                      subst (λ (n : Str). IsRun n (run_effective r chosen))
                        (effective-name action chosen variant matched)
                        (effective-IsRun r honest chosen))))
          ])
  ]
