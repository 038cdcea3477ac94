-- ===== src/Streaming/Locked.antt =====
-- The tests of a look for ready steps, against those of the executor with a callback.
use buildfab.Base.{
  Str, Bool, true, false, ◌||◌, List, [], ◌∷◌, ◌≡◌, refl, arith, contains, count, contains-count,
  str_eq_iff, absent-count, ◌≤◌, ◌+◌, inl, inr, Bool-cases, str_eq, str_eq_refl,
}
use buildfab.Base.Dict
use buildfab.Config.{Step}
use buildfab.Dag.{Dag}
use buildfab.Executor.{Execution, Mode, start_step, is_ready, ready_steps, all_done}
use buildfab.Streaming.{is_ready_locked, get_ready_steps_locked, all_under_way}

absent : (xs : List Str) (n : Str) → count xs n ≡ 0 → contains xs n ≡ false
absent xs n h = elim (Bool-cases (contains xs n)) [
  | inl there ↦ let k = contains-count xs n there in absurd (omega arith)
  | inr none_there ↦ none_there
]

module _ (dag : Dag) (should_execute : Step → Bool)
    (distinct : (n : Str) → count (Dict.keys dag) n ≤ 1) where
  is_ready-is_ready_locked :
      (e : Execution) (m : Mode) (n : Str)
      → ((k : Str) → count e.failed k ≤ count e.completed k)
      → is_ready_locked dag e n ≡ is_ready dag (record e { mode = m }) n
  unfolding is_ready is_ready_locked
  is_ready-is_ready_locked e m n failures = elim (Bool-cases (contains e.completed n)) [
    | inl done ↦ rw done refl
    | inr open_n ↦
        let f = absent e.failed n (omega (arith, failures n, absent-count e.completed n open_n)) in
        ground arith
  ]

  pub ready-locked :
      (e : Execution) (m : Mode) (names : List Str)
      → ((k : Str) → count e.failed k ≤ count e.completed k)
      → get_ready_steps_locked dag e names ≡ ready_steps dag (record e { mode = m }) names
  unfolding ready_steps get_ready_steps_locked
  ready-locked e m [] failures = refl
  ready-locked e m (n ∷ ns) failures =
      ground (arith, is_ready-is_ready_locked e m n failures, ready-locked e m ns failures)

  pub under_way :
      (e : Execution) (names : List Str)
      → all_under_way e names ≡ true
      → (n : Str) → contains names n ≡ true
      → (contains e.completed n || contains e.executing n) ≡ true
  unfolding all_under_way contains
  under_way e [] h n there = cc
  under_way e (x ∷ xs) h n there = elim (Bool-cases (str_eq x n)) [
    | inl same ↦ rw (← (str_eq_iff x n).0 same) (ground arith)
    | inr other ↦ under_way e xs (ground arith) n (ground arith)
  ]

  -- Every node is completed or executing.
  abbrev pub IsCovered : Execution → Type 0
  IsCovered s = (n : Str) → count (Dict.keys dag) n ≤ count s.completed n + count s.executing n

  pub all_under_way-IsCovered :
      (e : Execution) (names : List Str)
      → ((n : Str) → count names n ≡ count (Dict.keys dag) n)
      → all_under_way e names ≡ true
      → IsCovered e
  all_under_way-IsCovered e names same h n = elim (Bool-cases (contains names n)) [
    | inr none_there ↦ omega (arith, same n, absent-count names n none_there)
    | inl there ↦ elim (Bool-cases (contains e.completed n)) [
      | inl done ↦ omega (arith, distinct n, contains-count e.completed n done)
      | inr open_n ↦
          let k : contains e.executing n ≡ true = ground (arith, under_way e names h n there) in
          omega (arith, distinct n, contains-count e.executing n k)
    ]
  ]

  pub all_completed :
      (e : Execution) (names : List Str)
      → ((n : Str) → contains names n ≡ true → contains e.completed n ≡ true)
      → (ready_steps dag e names ≡ []) × (all_done e names ≡ true)
  unfolding ready_steps all_done is_ready contains
  all_completed e [] done = (refl, refl)
  all_completed e (x ∷ xs) done =
      let (r, a) = all_completed e xs (λ n h. done n (ground arith)) in
      let here : contains e.completed x ≡ true = done x (ground (arith, str_eq_refl x)) in
      (rw (here, r, ready_steps) refl, rw (here, a, all_done) refl)

  pub start_step-cancelled :
      (name : Str) (rest : List Str) (p : Execution)
      → (start_step dag should_execute name rest p).cancelled ≡ p.cancelled
  unfolding start_step
  start_step-cancelled name rest p = ground arith
