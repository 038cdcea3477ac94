-- ===== src/Executor/Safety.antt =====
-- What the executor guarantees of the steps that it starts and of the results that it returns.
use buildfab.Base.{
  Str, Bool, true, false, List, [], ◌∷◌, ◌≡◌, refl, sym, ◌∙◌, ap, ◌⊎◌, inl, inr, arith, contains,
  count, ◌+◌, ◌≤◌, contains-count, count-empty, count-nil, subst,
}
use buildfab.Base.Dict
use buildfab.Config.{Step}
use buildfab.Dag.{Dag}
use buildfab.Executor.{
  Execution, Result, closed, all_dependencies_completed, has_failed_dependency, Reachable,
}
use buildfab.Executor.Invariant.{names_of, requires, Inv, IsStopped}
use buildfab.Executor.Kept.{Reachable-Inv}

names_of-empty : (rs : List Result) → names_of rs ≡ [] → rs ≡ []
names_of-empty [] h = refl
names_of-empty (r ∷ rs) h = cc

module _ (dag : Dag) (should_execute : Step → Bool)
    (distinct : (n : Str) → count (Dict.keys dag) n ≤ 1) where
  -- For a graph with distinct names: whatever the order of the steps of the goroutines, a step whose
  -- action runs is a node of the graph, runs once, has no result yet and none in the channel, and
  -- its dependencies are all completed, none of them with an error.
  pub running_safe :
      {e : Execution}
      → Reachable dag should_execute e
      → (n : Str) → contains e.running n ≡ true
      → (count (Dict.keys dag) n ≡ 1)
        × (count e.running n ≡ 1)
        × (count (names_of e.result_chan) n ≡ 0)
        × (count (names_of e.results) n ≡ 0)
        × (all_dependencies_completed (requires dag n) e.completed ≡ true)
        × (has_failed_dependency (requires dag n) e.failed ≡ false)
  running_safe {e} r n on =
      let i = Reachable-Inv dag should_execute distinct r in
      let here = contains-count e.running n on in
      (
        omega (arith, i.once n, distinct n),
        omega (arith, i.once n, distinct n),
        omega (arith, i.once n, distinct n),
        omega (arith, i.once n, distinct n, i.recorded n),
        i.ordered n (omega arith),
        i.clean n here,
      )

  -- For a graph with distinct names: when the channel is closed, nothing runs that could still send
  -- and every result that was sent has been taken; and unless the run was cancelled there is exactly
  -- one result for each node and none for any other name.
  pub closed_results :
      {e : Execution}
      → Reachable dag should_execute e
      → e.mode ≡ closed
      → (e.running ≡ [])
        × (e.result_chan ≡ [])
        × ((e.cancelled ≡ true)
            ⊎ ((n : Str) → count (names_of e.results) n ≡ count (Dict.keys dag) n))
  closed_results {e} r shut = (
    count-empty e.running (λ n. omega (arith, quiet n)),
    names_of-empty e.result_chan
        (count-empty (names_of e.result_chan) (λ n. omega (arith, quiet n))),
    outcome,
  )
    where
      i : Inv dag e
      i = Reachable-Inv dag should_execute distinct r

      quiet : (n : Str) → count e.running n + count (names_of e.result_chan) n ≡ 0
      quiet n = sym (i.marked n) ∙ (ap (λ (l : List Str). count l n) (i.at_rest shut) ∙ count-nil n)

      outcome :
          (e.cancelled ≡ true)
          ⊎ ((n : Str) → count (names_of e.results) n ≡ count (Dict.keys dag) n)
      outcome = elim (i.stopped (subst IsStopped (sym shut) tt)) [
        | inl gone ↦ inl gone
        | inr all ↦ inr (λ n. omega (arith, all n, i.recorded n, i.once n))
      ]
