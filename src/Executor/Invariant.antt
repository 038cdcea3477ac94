-- ===== src/Executor/Invariant.antt =====
-- What holds throughout a run of the executor, and the lemmas on the tests that its steps make.
use buildfab.Base.{
  ℕ, Str, true, false, List, [], ◌∷◌, ◌++◌, map, ◌≡◌, ◌≢◌, refl, ◌⊎◌, arith, contains, count, ◌+◌,
  ◌≤◌, ◌<◌, str_eq, str_eq_iff, contains-count, count-cons, count-nil, count-append, ap, ◌∙◌,
  if◌then◌else◌,
}
use buildfab.Base.Dict
use buildfab.Dag.{Dag}
use buildfab.Executor.{
  Execution, Result, Mode, scanning, starting, draining, closed, dependencies_of, is_ready,
  all_dependencies_completed, has_failed_dependency, ready_steps, all_done, remaining,
}

abbrev pub waiting : Mode → List Str
waiting scanning = []
waiting (starting name rest) = name ∷ rest
waiting draining = []
waiting closed = []

abbrev pub names_of : List Result → List Str
names_of rs = map (λ r. r.name) rs

-- How often a name is found ready, running, reported or completed.
abbrev pub begun : Execution → Str → ℕ
begun e n =
    count (waiting e.mode) n
    + (count e.running n + (count (names_of e.result_chan) n + count e.completed n))

abbrev pub requires : Dag → Str → List Str
requires dag n = dependencies_of (Dict.lookup n dag)

abbrev pub IsStopped : Mode → Type 0
IsStopped scanning = ⊥
IsStopped (starting _ _) = ⊥
IsStopped draining = Unit
IsStopped closed = Unit

pub record Inv (dag : Dag) (e : Execution) : Type 0 where
  pub once : (n : Str) → begun e n ≤ count (Dict.keys dag) n
  pub marked :
      (n : Str) → count e.executing n ≡ count e.running n + count (names_of e.result_chan) n
  pub ordered :
      (n : Str) → 0 < begun e n → all_dependencies_completed (requires dag n) e.completed ≡ true
  pub clean :
      (n : Str) → 0 < count e.running n → has_failed_dependency (requires dag n) e.failed ≡ false
  pub failures : (n : Str) → count e.failed n ≤ count e.completed n
  pub recorded : (n : Str) → count (names_of e.results) n ≡ count e.completed n
  pub stopped :
      IsStopped e.mode
      → (e.cancelled ≡ true) ⊎ ((n : Str) → count (Dict.keys dag) n ≤ count e.completed n)
  pub at_rest : e.mode ≡ closed → e.executing ≡ []

pub dependencies_completed-cons :
    (deps : List Str) (x : Str) (completed : List Str)
    → all_dependencies_completed deps completed ≡ true
    → all_dependencies_completed deps (x ∷ completed) ≡ true
unfolding all_dependencies_completed contains
dependencies_completed-cons [] x completed h = refl
dependencies_completed-cons (d ∷ deps) x completed h =
    ground (arith, dependencies_completed-cons deps x completed)

-- A result that is yet to come fails no step whose dependencies are completed.
pub failed_dependency-cons :
    (deps : List Str) (x : Str) (completed failed : List Str)
    → all_dependencies_completed deps completed ≡ true
    → contains completed x ≡ false
    → has_failed_dependency deps failed ≡ false
    → has_failed_dependency deps (x ∷ failed) ≡ false
unfolding all_dependencies_completed has_failed_dependency contains
failed_dependency-cons [] x completed failed h f c = refl
failed_dependency-cons (d ∷ deps) x completed failed h f c =
    ground (arith, failed_dependency-cons deps x completed failed, str_eq_iff x d)

pub is_ready-fresh :
    (dag : Dag) (e : Execution) (n : Str)
    → is_ready dag e n ≡ true
    → (contains e.completed n ≡ false)
      × (contains e.executing n ≡ false)
      × (all_dependencies_completed (requires dag n) e.completed ≡ true)
unfolding is_ready
is_ready-fresh dag e n h = ground arith

pub ready_steps-count :
    (dag : Dag) (e : Execution) (names : List Str) (n : Str)
    → count (ready_steps dag e names) n ≡ (if is_ready dag e n then count names n else 0)
unfolding ready_steps count
ready_steps-count dag e [] n = ground arith
ready_steps-count dag e (x ∷ names) n =
    ground (arith, ready_steps-count dag e names n, str_eq_iff x n)

pub all_done-completed :
    (e : Execution) (names : List Str) (n : Str)
    → ((m : Str) → count e.failed m ≤ count e.completed m)
    → all_done e names ≡ true
    → 0 < count names n
    → 0 < count e.completed n
unfolding all_done count
all_done-completed e [] n failures h i = omega (arith, i)
all_done-completed e (x ∷ names) n failures h i = ground (
  arith,
  all_done-completed e names n failures,
  contains-count e.completed x,
  contains-count e.failed x,
  failures x,
  str_eq_iff x n,
)

pub waiting-remaining : (rest : List Str) → waiting (remaining rest) ≡ rest
unfolding remaining
waiting-remaining [] = refl
waiting-remaining (x ∷ rest) = refl

pub remaining-running : (rest : List Str) → ¬ IsStopped (remaining rest)
unfolding remaining
remaining-running [] h = h
remaining-running (x ∷ rest) h = h

pub remaining-open : (rest : List Str) → remaining rest ≢ closed
unfolding remaining
remaining-open [] h = cc
remaining-open (x ∷ rest) h = cc

names_of-append :
    (rs : List Result) (r : Result) → names_of (rs ++ r ∷ []) ≡ names_of rs ++ r.name ∷ []
names_of-append [] r = refl
names_of-append (x ∷ rs) r = ap (λ (l : List Str). x.name ∷ l) (names_of-append rs r)

pub names_of-snoc :
    (rs : List Result) (r : Result) (n : Str)
    → count (names_of (rs ++ r ∷ [])) n ≡ count (names_of rs) n + (if str_eq r.name n then 1 else 0)
names_of-snoc rs r n =
    ap (λ (l : List Str). count l n) (names_of-append rs r)
    ∙ (count-append (names_of rs) (r.name ∷ []) n
        ∙ ap (λ (k : ℕ). count (names_of rs) n + k)
            (ground (arith, count-cons r.name [] n, count-nil n)))
