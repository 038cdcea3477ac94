-- ===== src/Executor/Progress.antt =====
-- The executor is never stuck: some node is always ready, since the graph has no cycle.
use buildfab.Base.{
  Str, Bool, true, false, List, [], ◌∷◌, ◌≡◌, ◌≢◌, refl, ◌∙◌, ap, inl, inr, arith, contains, count,
  ◌≤◌, contains-count, absent-count, count-empty, count-nil, Bool-cases, str_eq_refl,
}
use buildfab.Base.Dict
use buildfab.Base.Dict.{contains-keys}
use buildfab.Config.{Step}
use buildfab.Dag.{Dag}
use buildfab.Dag.Walk.{IsClosed, IsAcyclic}
use buildfab.Executor.{
  Execution, Result, Mode, scanning, starting, draining, closed, all_dependencies_completed,
  Reachable, Next, look, launch, complete, handle, abandon, close, is_ready, ready_steps, all_done,
  scan, scanned, skip, start_step, finish, handle_result,
}
use buildfab.Executor.Invariant.{names_of, requires, Inv, ready_steps-count}
use buildfab.Executor.Kept.{Reachable-Inv}
use buildfab.Executor.Candidate.{Candidate, candidate}

contains_nil : (n : Str) → contains [] n ≡ false
unfolding contains
contains_nil n = refl

contains_head : (n : Str) (l : List Str) → contains (n ∷ l) n ≡ true
unfolding contains
contains_head n l = rw (str_eq_refl n) refl

undone_name :
    (e : Execution) (names : List Str)
    → all_done e names ≡ false
    → (n : Str) × (contains names n ≡ true) × (contains e.completed n ≡ false)
unfolding all_done contains
undone_name e [] h = cc
undone_name e (x ∷ names) h = elim (Bool-cases (contains e.completed x)) [
  | inl done ↦
      let (m, named, open_) = undone_name e names (ground arith) in (m, ground arith, open_)
  | inr undone ↦ (x, rw (str_eq_refl x) refl, undone)
]

-- A step of a goroutine of the executor: a step, but not that the run is cancelled from outside.
abbrev pub IsMove : Dag → (Step → Bool) → Execution → Execution → Type 0
IsMove dag should_execute e e' = Next dag should_execute e e' × (e'.cancelled ≡ e.cancelled)

module _ (dag : Dag) (should_execute : Step → Bool)
    (distinct : (n : Str) → count (Dict.keys dag) n ≤ 1) (closed_graph : IsClosed dag)
    (acyclic : IsAcyclic dag) where
  start_step-cancelled :
      (name : Str) (rest : List Str) (e : Execution)
      → (start_step dag should_execute name rest e).cancelled ≡ e.cancelled
  unfolding start_step
  start_step-cancelled name rest e = ground arith

  -- With nothing under way, a look finds a step that is ready or that all is done.
  looks :
      (e : Execution)
      → Inv dag e
      → e.executing ≡ []
      → (found : List Str) → ready_steps dag e (Dict.keys dag) ≡ found
      → scanned e (Dict.keys dag) found ≢ scanning
  unfolding scanned is_ready
  looks e i rested (x ∷ found) f = λ h. cc
  looks e i rested [] f = elim (Bool-cases (all_done e (Dict.keys dag))) [
    | inl done ↦ rw done (λ h. cc)
    | inr undone ↦
        let (n, inn, open_) = undone_name e (Dict.keys dag) undone in
        absurd (unready (candidate dag closed_graph acyclic e.completed n inn open_))
  ]
    where
      neither : (m : Str) → contains e.failed m ≡ true → ¬ (contains e.completed m ≡ false)
      neither m bad open_ =
          omega
            (arith, contains-count e.failed m bad, i.failures m, absent-count e.completed m open_)

      unfailed : (m : Str) → contains e.completed m ≡ false → contains e.failed m ≡ false
      unfailed m open_ = elim (Bool-cases (contains e.failed m)) [
        | inl bad ↦ absurd (neither m bad open_)
        | inr good ↦ good
      ]

      ready :
          (m : Str)
          → contains e.completed m ≡ false
          → all_dependencies_completed (requires dag m) e.completed ≡ true
          → is_ready dag e m ≡ true
      ready m open_ met =
          ground
            (arith, unfailed m open_, ap (λ (l : List Str). contains l m) rested, contains_nil m)

      unready : ¬ Candidate dag closed_graph acyclic e.completed
      unready (m, inn, open_, met) = ground (
        arith,
        ready m open_ met,
        contains-count (Dict.keys dag) m inn,
        ready_steps-count dag e (Dict.keys dag) m,
        ap (λ (l : List Str). count l m) f,
        count-nil m,
      )

  idle-IsMove :
      (e : Execution)
      → Inv dag e
      → e.executing ≡ []
      → (mode : Mode) → e.mode ≡ mode
      → mode ≢ closed
      → (c : Bool) → e.cancelled ≡ c
      → (e' : Execution) × IsMove dag should_execute e e'
  unfolding scan
  idle-IsMove e i rested closed m live c cancelled_ = absurd (live refl)
  idle-IsMove e i rested draining m live c cancelled_ = (_, (close m rested, refl))
  idle-IsMove e i rested (starting name rest) m live true gone =
      (_, (abandon gone (λ h. cc) (λ h. cc), refl))
  idle-IsMove e i rested scanning m live true gone = (_, (abandon gone (λ h. cc) (λ h. cc), refl))
  idle-IsMove e i rested (starting name rest) m live false on =
      (_, (launch name rest m on, start_step-cancelled name rest e))
  idle-IsMove e i rested scanning m live false on = (
    _,
    (
      look (Dict.keys dag) (λ n. refl) m on
          (looks e i rested (ready_steps dag e (Dict.keys dag)) refl),
      refl,
    ),
  )

  -- On a graph with distinct names, without cycles, and whose dependencies are nodes, in every
  -- reachable execution that has not closed its channel some goroutine of the executor has a step,
  -- which is not the cancellation of the run: the executor does not deadlock, cancelled or not.
  pub never_stuck :
      {e : Execution}
      → Reachable dag should_execute e
      → e.mode ≢ closed
      → (e' : Execution) × IsMove dag should_execute e e'
  unfolding finish handle_result
  never_stuck {e} r live = by_running e.running refl e.result_chan refl
    where
      i : Inv dag e
      i = Reachable-Inv dag should_execute distinct r

      nothing : e.running ≡ [] → e.result_chan ≡ [] → (n : Str) → count e.executing n ≡ 0
      nothing w s n = omega (
        arith,
        i.marked n,
        ap (λ (l : List Str). count l n) w,
        ap (λ (l : List Result). count (names_of l) n) s,
        count-nil n,
      )

      by_running :
          (on : List Str)
          → e.running ≡ on
          → (sent : List Result) → e.result_chan ≡ sent
          → (e' : Execution) × IsMove dag should_execute e e'
      by_running (n ∷ on) w sent s = (
        _,
        (complete n (skip n []) (ap (λ (l : List Str). contains l n) w ∙ contains_head n on), refl),
      )
      by_running [] w (x ∷ sent) s = (_, (handle x sent s, refl))
      by_running [] w [] s =
          idle-IsMove e i (count-empty e.executing (λ n. nothing w s n)) e.mode refl live
            e.cancelled refl
