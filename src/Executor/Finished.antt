-- ===== src/Executor/Finished.antt =====
-- The executor comes to its end: its steps do a bounded work, and it is never stuck.
use buildfab.Base.{
  ℕ, zero, suc, ◌+◌, ◌*◌, ◌≤◌, ◌<◌, Str, Bool, false, length, ◌≡◌, refl, ◌∙◌, arith, count, inl,
  inr, ◌⊎◌,
}
use buildfab.Base.Dict
use buildfab.Config.{Step}
use buildfab.Dag.{Dag}
use buildfab.Dag.Walk.{IsClosed, IsAcyclic}
use buildfab.Executor.{Execution, Mode, scanning, starting, draining, closed, Reachable, then_next}
use buildfab.Executor.Invariant.{names_of}
use buildfab.Executor.Safety.{closed_results}
use buildfab.Executor.Progress.{IsMove, never_stuck}
use buildfab.Executor.Work.{work, runs_end}

-- Steps of the goroutines, one after the other, that end with `last`.
pub data Moves (dag : Dag) (should_execute : Step → Bool) (last : Execution)
    : Execution → Type 0 where
  here : Moves dag should_execute last last
  on_by :
      {e e' : Execution}
      → IsMove dag should_execute e e'
      → Moves dag should_execute last e'
      → Moves dag should_execute last e

module _ (dag : Dag) (should_execute : Step → Bool)
    (distinct : (n : Str) → count (Dict.keys dag) n ≤ 1) (closed_graph : IsClosed dag)
    (acyclic : IsAcyclic dag) where
  -- An end of the run, with one result for each node.
  abbrev IsFinished : Execution → Execution → Type 0
  IsFinished e e' =
      Moves dag should_execute e' e
      × (e'.mode ≡ closed)
      × ((n : Str) → count (names_of e'.results) n ≡ count (Dict.keys dag) n)

  at_end :
      {e : Execution}
      → Reachable dag should_execute e
      → e.cancelled ≡ false
      → e.mode ≡ closed
      → IsFinished e e
  at_end {e} r on shut = (here, shut, results)
    where
      results : (n : Str) → count (names_of e.results) n ≡ count (Dict.keys dag) n
      results = elim ((closed_results dag should_execute distinct r shut).2) [
        | inl gone ↦ cc
        | inr all ↦ all
      ]

  closed_or_goes :
      {e : Execution}
      → Reachable dag should_execute e
      → (mode : Mode) → e.mode ≡ mode
      → (e.mode ≡ closed) ⊎ ((e' : Execution) × IsMove dag should_execute e e')
  closed_or_goes r closed is = inl is
  closed_or_goes r scanning is =
      inr (never_stuck dag should_execute distinct closed_graph acyclic r (λ h. cc))
  closed_or_goes r draining is =
      inr (never_stuck dag should_execute distinct closed_graph acyclic r (λ h. cc))
  closed_or_goes r (starting name rest) is =
      inr (never_stuck dag should_execute distinct closed_graph acyclic r (λ h. cc))

  -- `left` bounds the work that is left.
  finishes_within :
      (left : ℕ) {e : Execution}
      → Reachable dag should_execute e
      → e.cancelled ≡ false
      → 6 * length (Dict.keys dag) + 4 < work e + left
      → (e' : Execution) × IsFinished e e'
  finishes_within zero {e} r on room = elim (closed_or_goes r e.mode refl) [
    | inl shut ↦ (e, at_end r on shut)
    | inr (e', (next, same)) ↦
        let (more, within) = runs_end dag should_execute distinct r next in
        absurd (over (work e) (work e') (6 * length (Dict.keys dag) + 4) more within room)
  ]
    where
      over : (a b c : ℕ) → a < b → b ≤ c → ¬ (c < a + 0)
      over a b c f g h = omega arith
  finishes_within (suc left) {e} r on room = elim (closed_or_goes r e.mode refl) [
    | inl shut ↦ (e, at_end r on shut)
    | inr (e', (next, same)) ↦
        let (more, within) = runs_end dag should_execute distinct r next in
        let (last, (moves, shut, all)) =
          finishes_within left (then_next r next) (same ∙ on) (omega (arith, more, room)) in
        (last, (on_by (next, same) moves, shut, all))
  ]

  pub finishes :
      {e : Execution}
      → Reachable dag should_execute e
      → e.cancelled ≡ false
      → (e' : Execution) × Moves dag should_execute e' e
        × (e'.mode ≡ closed)
        × ((n : Str) → count (names_of e'.results) n ≡ count (Dict.keys dag) n)
  finishes {e} r on =
      let (last, (moves, shut, all)) =
        finishes_within (suc (6 * length (Dict.keys dag) + 4)) r on (omega arith) in
      (last, moves, shut, all)
