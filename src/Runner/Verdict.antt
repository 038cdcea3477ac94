-- ===== src/Runner/Verdict.antt =====
-- The verdict of `executeStageWithCallback` and `runStageInternal` of pkg/buildfab/buildfab.go over the
-- results of a stage, and `RunStage`.
use buildfab.Base.{
  Str, Bool, true, false, not, ◌&&◌, List, [], ◌∷◌, ◌++◌, Option, none, some, codes, str_eq,
  if◌then◌else◌, ◌≡◌, refl, sym, subst, ◌∙◌, ◌↔◌, ◌⊎◌, inl, inr, arith, Bool-cases, All, first_of,
  first_of-none,
}
use buildfab.Config.{Step, Config}
use buildfab.Dag.{Dag, Built, built, failed, BuildError, build_dag}
use buildfab.Output.Status.{error, status_eq}
use buildfab.Executor.{Result}

abbrev pub is_warn : Step → Bool
is_warn step = str_eq step.on_error (codes "warn")

-- The error for a result, by its error or else by its message.
unfoldable pub failure : Step → Result → Option Str → Str
failure step r (some e) = codes "step " ++ (step.action ++ (codes " failed: " ++ e))
failure step r none = codes "step " ++ (step.action ++ (codes " failed: " ++ r.message))

-- The inner loop: the first step of that name that does not only warn.
unfoldable pub blamed_step : List Step → Result → Option Str
blamed_step [] r = none
blamed_step (step ∷ steps) r =
    let rest = blamed_step steps r in
    if str_eq step.action r.name && not (is_warn step) then some (failure step r r.error) else rest

unfoldable pub first_failure : List Step → List Result → Option Str
first_failure steps [] = none
first_failure steps (r ∷ rs) =
    first_of (if status_eq r.status error then blamed_step steps r else none)
      (first_failure steps rs)

-- Behind the results: a cancelled run ends with the context's error, and the executor returns none.
unfoldable pub results_error : List Step → List Result → Bool → Option Str
results_error steps results cancelled =
    first_of (first_failure steps results)
      (if cancelled then some (codes "context canceled") else none)

-- Why a stage ends with an error: its graph cannot be built, or the error's text.
pub data StageError : Type 0 where
  no_graph : BuildError → StageError
  stage_failed : Str → StageError

abbrev failed_with : Option Str → Option StageError
failed_with none = none
failed_with (some e) = some (stage_failed e)

-- `executeStageWithCallback` for the results of executing the graph, and whether the run is cancelled
-- then. The ranges are the orders in which `buildDAG` ranges over its map.
unfoldable pub stage_error :
    Config
    → (List Str → List Str)
    → (List Str → List Str)
    → List Step
    → (Dag → List Result)
    → Bool
    → Option StageError
unfolding results_error
stage_error c range₁ range₂ steps results cancelled = elim (build_dag c range₁ range₂ steps) [
  | failed e ↦ some (no_graph e)
  | built dag ↦ failed_with (results_error steps (results dag) cancelled)
]

-- Every step whose name the result has only warns.
abbrev pub IsTolerated : List Step → Result → Type 0
IsTolerated steps r = All (λ s. str_eq s.action r.name ≡ true → is_warn s ≡ true) steps

abbrev pub IsHarmless : List Step → Result → Type 0
IsHarmless steps r = status_eq r.status error ≡ true → IsTolerated steps r

blamed_none : (steps : List Step) (r : Result) → blamed_step steps r ≡ none → IsTolerated steps r
unfolding blamed_step
blamed_none [] r h = tt
blamed_none (s ∷ steps) r h = (λ k. ground arith, blamed_none steps r (ground arith))

tolerated_none : (steps : List Step) (r : Result) → IsTolerated steps r → blamed_step steps r ≡ none
unfolding blamed_step
tolerated_none [] r h = refl
tolerated_none (s ∷ steps) r h = ground (arith, h.0, tolerated_none steps r h.1)

harmless :
    (steps : List Step) (r : Result)
    → ((if status_eq r.status error then blamed_step steps r else none) ≡ none) ↔ IsHarmless steps r
harmless steps r = elim (Bool-cases (status_eq r.status error)) [
  | inl bad ↦ rw bad (λ h k. blamed_none steps r h, λ h. tolerated_none steps r (h refl))
  | inr good ↦ rw good (λ h k. cc, λ h. refl)
]

first_failure-none :
    (steps : List Step) (rs : List Result)
    → (first_failure steps rs ≡ none) ↔ All (IsHarmless steps) rs
unfolding first_failure
first_failure-none steps [] = (λ h. tt, λ h. refl)
first_failure-none steps (r ∷ rs) = (
  λ h.
      let (a, b) = (first_of-none _ _).0 h in
      ((harmless steps r).0 a, (first_failure-none steps rs).0 b),
  λ h. (first_of-none _ _).1 ((harmless steps r).1 h.0, (first_failure-none steps rs).1 h.1),
)

results_error-none :
    (steps : List Step) (results : List Result) (cancelled : Bool)
    → (results_error steps results cancelled ≡ none)
      ↔ (All (IsHarmless steps) results × (cancelled ≡ false))
unfolding results_error
results_error-none steps results cancelled = (
  λ h.
      let (a, b) = (first_of-none _ _).0 h in
      ((first_failure-none steps results).0 a, ground (arith, b)),
  λ h. (first_of-none _ _).1 ((first_failure-none steps results).1 h.0, rw (h.1) refl),
)

failed_with-none : (o : Option Str) → failed_with o ≡ none → o ≡ none
failed_with-none none h = refl
failed_with-none (some e) h = cc

Built-cases : (b : Built) → ((e : BuildError) × (b ≡ failed e)) ⊎ ((dag : Dag) × (b ≡ built dag))
Built-cases (failed e) = inl (e, refl)
Built-cases (built dag) = inr (dag, refl)

same_graph : (d dag : Dag) → built d ≡ built dag → d ≡ dag
same_graph d dag h = cc

-- A stage succeeds exactly if buildDAG returns a graph for its steps, each of the results of its
-- execution with an error is of steps that are declared with `onerror: warn`, and the run is not
-- cancelled.
pub stage_error-none :
    (c : Config) (range₁ range₂ : List Str → List Str) (steps : List Step)
    (results : Dag → List Result) (cancelled : Bool)
    → (stage_error c range₁ range₂ steps results cancelled ≡ none) ↔ (
        (dag : Dag) × (build_dag c range₁ range₂ steps ≡ built dag)
        × All (IsHarmless steps) (results dag)
        × (cancelled ≡ false))
unfolding stage_error
stage_error-none c range₁ range₂ steps results cancelled =
    elim (Built-cases (build_dag c range₁ range₂ steps)) [
      | inl (e, is) ↦
          (λ h. cc (rw (is, stage_error) at h), λ h. let (dag, there, fine, on) = h in cc)
      | inr (dag, is) ↦ (
        λ h.
            let k = failed_with-none _ (rw (is, stage_error) at h) in
            let (fine, on) = (results_error-none steps (results dag) cancelled).0 k in
            (dag, is, fine, on),
        λ h.
            let (d, there, fine, on) = h in
            let same : d ≡ dag = same_graph d dag (sym there ∙ is) in
            rw
              (
                is,
                (results_error-none steps (results dag) cancelled).1
                    (subst (λ x. All (IsHarmless steps) (results x)) same fine, on),
                stage_error,
              )
              refl,
      )
    ]
