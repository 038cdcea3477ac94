-- ===== src/Executor/Work.antt =====
-- Every step brings the run closer to its end, so no run is endless.
use buildfab.Base.{
  ℕ, Str, Bool, List, [], ◌∷◌, ◌++◌, ◌≡◌, refl, ap, inl, inr, arith, without, count, ◌+◌, ◌*◌, ◌≤◌,
  ◌<◌, count-nil, count-cons, count-append, count-without, length, length-append, str_eq_refl, ◌≢◌,
  Bool-cases, if◌then◌else◌,
}
use buildfab.Base.Dict
use buildfab.Config.{Step}
use buildfab.Dag.{Dag}
use buildfab.Executor.{
  Execution, Result, Mode, scanning, starting, draining, closed, Reachable, Next, look, launch,
  complete, handle, cancel, abandon, close, scan, scanned, start_step, remaining, finish,
  handle_result, ready_steps, all_done, then_next, named_result, send, has_failed_dependency,
  meets_condition,
}
use buildfab.Executor.Invariant.{names_of, requires, Inv}
use buildfab.Executor.Kept.{Reachable-Inv}

unfoldable pub stage : Mode → ℕ
stage scanning = 0
stage (starting _ _) = 1
stage draining = 2
stage closed = 3

-- What a run has done so far.
abbrev pub work : Execution → ℕ
work e =
    2 * length e.running
    + (4 * length e.result_chan
        + (6 * length e.completed + (stage e.mode + (if e.cancelled then 1 else 0))))

length-without : (n : Str) (l : List Str) → length l ≡ length (without n l) + count l n
unfolding count without
length-without n [] = refl
length-without n (x ∷ l) = ground (arith, length-without n l)

count_head : (x : Str) (l : List Str) → 0 < count (x ∷ l) x
count_head x l = ground (arith, count-cons x l x, str_eq_refl x)

-- A list without repetition is no longer than a list that it is part of.
length_le :
    (ks l : List Str)
    → ((n : Str) → count l n ≤ 1)
    → ((n : Str) → count l n ≤ count ks n)
    → length l ≤ length ks
length_le [] [] once part = omega arith
length_le [] (x ∷ l) once part = omega (arith, count-nil x, part x, count_head x l)
length_le (k ∷ ks) l once part = omega (
  arith,
  length-without k l,
  once k,
  length_le ks (without k l) (λ n. ground (arith, once n, count-without k l n))
      (λ n. ground (arith, part n, count-without k l n, count-cons k ks n)),
)

stage-scanned :
    (e : Execution) (names found : List Str)
    → scanned e names found ≢ scanning
    → 0 < stage (scanned e names found)
unfolding scanned stage
stage-scanned e names (x ∷ found) h = omega arith
stage-scanned e names [] h = elim (Bool-cases (all_done e names)) [
  | inl done ↦ rw done (omega arith)
  | inr undone ↦ absurd (h (rw undone refl))
]

stage-remaining : (rest : List Str) → stage (remaining rest) ≤ 1
unfolding remaining stage
stage-remaining [] = omega arith
stage-remaining (x ∷ rest) = omega arith

stage_open : (m : Mode) → m ≢ draining → m ≢ closed → stage m ≤ 1
unfolding stage
stage_open scanning a b = omega arith
stage_open (starting _ _) a b = omega arith
stage_open draining a b = absurd (a refl)
stage_open closed a b = absurd (b refl)

stage_le : (m : Mode) → stage m ≤ 3
unfolding stage
stage_le scanning = omega arith
stage_le (starting _ _) = omega arith
stage_le draining = omega arith
stage_le closed = omega arith

length-names_of : (rs : List Result) → length (names_of rs) ≡ length rs
length-names_of [] = refl
length-names_of (r ∷ rs) = omega (arith, length-names_of rs)

module _ (dag : Dag) (should_execute : Step → Bool)
    (distinct : (n : Str) → count (Dict.keys dag) n ≤ 1) where
  skip-work :
      (e : Execution) (name : Str) (rest : List Str) (r : Result)
      → stage e.mode ≡ 1
      → work e < work (send r (record e { executing = name ∷ e.executing; mode = remaining rest }))
  skip-work e name rest r m = omega (arith, m, length-append e.result_chan (r ∷ []))

  launch-work :
      (e : Execution) (name : Str) (rest : List Str)
      → stage e.mode ≡ 1
      → work e < work (start_step dag should_execute name rest e)
  unfolding start_step
  launch-work e name rest m =
      elim (Bool-cases (has_failed_dependency (requires dag name) e.failed)) [
        | inl bad ↦ rw bad (skip-work e name rest _ m)
        | inr good ↦ elim (Bool-cases (meets_condition should_execute (Dict.lookup name dag))) [
          | inl met ↦ rw (good, met) (omega (arith, m))
          | inr unmet ↦ rw (good, unmet) (skip-work e name rest _ m)
        ]
      ]

  step-work : {e e' : Execution} → Inv dag e → Next dag should_execute e e' → work e < work e'
  unfolding stage scan finish handle_result
  step-work {e} i (look names visits idle on found) =
      omega (arith, ap stage idle, stage-scanned e names (ready_steps dag e names) found)
  step-work {e} i (launch name rest m on) = launch-work e name rest (ap stage m)
  step-work {e} i (complete name r on) = omega (
    arith,
    length-without name e.running,
    i.once name,
    distinct name,
    length-append e.result_chan (named_result e.cancelled name r ∷ []),
  )
  step-work {e} i (handle r rest c) = omega (arith, ap length c)
  step-work {e} i (cancel on) = ground arith
  step-work {e} i (abandon gone m₁ m₂) = omega (arith, stage_open e.mode m₁ m₂)
  step-work {e} i (close m rested) = omega (arith, ap stage m)

  work_le : (e : Execution) → Inv dag e → work e ≤ 6 * length (Dict.keys dag) + 4
  work_le e i = ground (
    arith,
    stage_le e.mode,
    length-append e.running (names_of e.result_chan ++ e.completed),
    length-append (names_of e.result_chan) e.completed,
    length-names_of e.result_chan,
    length_le (Dict.keys dag) (e.running ++ (names_of e.result_chan ++ e.completed))
        (λ n. omega (arith, part n, distinct n)) part,
  )
    where
      part :
          (n : Str)
          → count (e.running ++ (names_of e.result_chan ++ e.completed)) n ≤ count (Dict.keys dag) n
      part n = omega (
        arith,
        i.once n,
        count-append e.running (names_of e.result_chan ++ e.completed) n,
        count-append (names_of e.result_chan) e.completed n,
      )

  -- For a graph with distinct names, every step of a reachable execution does some of a work that a
  -- run cannot exceed: six units for each node and four more.
  pub runs_end :
      {e e' : Execution}
      → Reachable dag should_execute e
      → Next dag should_execute e e'
      → (work e < work e') × (work e' ≤ 6 * length (Dict.keys dag) + 4)
  runs_end {e} {e'} r next = (
    step-work (Reachable-Inv dag should_execute distinct r) next,
    work_le e' (Reachable-Inv dag should_execute distinct (then_next r next)),
  )
