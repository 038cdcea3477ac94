-- ===== src/Executor/Starting.antt =====
-- The steps of the starter keep the invariant of the executor.
use buildfab.Base.{
  suc, Str, Bool, true, false, List, [], ◌∷◌, ◌++◌, ◌≡◌, refl, sym, ◌∙◌, ap, subst, ◌⊎◌, inl, inr,
  arith, count, ◌+◌, ◌≤◌, ◌<◌, str_eq, str_eq_iff, str_eq_refl, absent-count, count-cons, count-nil,
  if◌then◌else◌, Bool-cases,
}
use buildfab.Base.Dict
use buildfab.Config.{Step}
use buildfab.Dag.{Dag}
use buildfab.Executor.{
  Execution, Result, Mode, scanning, starting, is_ready, send, all_dependencies_completed,
  has_failed_dependency, ready_steps, all_done, remaining, scanned, start_step, meets_condition,
}
use buildfab.Executor.Invariant.{
  waiting, names_of, begun, requires, Inv, is_ready-fresh, ready_steps-count, names_of-snoc,
  all_done-completed, waiting-remaining, remaining-running, remaining-open,
}

-- A name is one that the range yields, and no map has a key twice.
module _ (dag : Dag) (should_execute : Step → Bool)
    (distinct : (n : Str) → count (Dict.keys dag) n ≤ 1) where
  -- What the starter finds are nodes that have not begun.
  pub look-Inv :
      (e : Execution) (names : List Str)
      → ((n : Str) → count names n ≡ count (Dict.keys dag) n)
      → e.mode ≡ scanning
      → Inv dag e
      → (found : List Str) → ready_steps dag e names ≡ found
      → Inv dag (record e { mode = scanned e names found })
  unfolding scanned
  look-Inv e names visits idle i [] f = elim (Bool-cases (all_done e names)) [
    | inl done ↦ rw done (record {
      marked = i.marked;
      clean = i.clean;
      failures = i.failures;
      recorded = i.recorded;
      once = λ n. omega (arith, i.once n, nothing n, count-nil n);
      ordered = λ n h. i.ordered n (omega (arith, h, nothing n, count-nil n));
      stopped = λ h. inr (λ n. finished done n);
      at_rest = λ h. cc;
    })
    | inr more ↦ rw more (record {
      marked = i.marked;
      clean = i.clean;
      failures = i.failures;
      recorded = i.recorded;
      once = λ n. omega (arith, i.once n, nothing n, count-nil n);
      ordered = λ n h. i.ordered n (omega (arith, h, nothing n, count-nil n));
      stopped = λ h. absurd h;
      at_rest = λ h. cc;
    })
  ]
    where
      nothing : (n : Str) → count (waiting e.mode) n ≡ 0
      nothing n = ap (λ (m : Mode). count (waiting m) n) idle ∙ count-nil n

      finished : all_done e names ≡ true → (n : Str) → count (Dict.keys dag) n ≤ count e.completed n
      finished done n =
          ground (arith, distinct n, visits n, all_done-completed e names n i.failures done)
  look-Inv e names visits idle i (x ∷ found) f = record {
    marked = i.marked;
    clean = i.clean;
    failures = i.failures;
    recorded = i.recorded;
    once = λ n. fits n (Bool-cases (is_ready dag e n));
    ordered = λ n h. ready n h (Bool-cases (is_ready dag e n));
    stopped = λ h. absurd h;
    at_rest = λ h. cc;
  }
    where
      here : (n : Str) → count (x ∷ found) n ≡ (if is_ready dag e n then count names n else 0)
      here n = ap (λ (l : List Str). count l n) (sym f) ∙ ready_steps-count dag e names n

      fits :
          (n : Str)
          → (is_ready dag e n ≡ true) ⊎ (is_ready dag e n ≡ false)
          → begun (record e { mode = starting x found }) n ≤ count (Dict.keys dag) n
      fits n (inl is) =
          let (a, b, c) = is_ready-fresh dag e n is in
          ground (
            arith,
            here n,
            visits n,
            absent-count e.completed n a,
            absent-count e.executing n b,
            i.marked n,
          )
      fits n (inr not_yet) = ground (arith, here n, i.once n)

      ready :
          (n : Str)
          → 0 < begun (record e { mode = starting x found }) n
          → (is_ready dag e n ≡ true) ⊎ (is_ready dag e n ≡ false)
          → all_dependencies_completed (requires dag n) e.completed ≡ true
      ready n h (inl is) = (is_ready-fresh dag e n is).2
      ready n h (inr not_yet) = i.ordered n (ground (arith, here n))

  -- The starter's next step is a node that has not begun and whose dependencies are completed.
  module _ (e : Execution) (name : Str) (rest : List Str) (m : e.mode ≡ starting name rest)
      (i : Inv dag e) where
    ahead :
        (n : Str)
        → count (waiting e.mode) n ≡ (
            if str_eq name n
            then suc (count (waiting (remaining rest)) n)
            else count (waiting (remaining rest)) n)
    ahead n =
        ap (λ (k : Mode). count (waiting k) n) m
        ∙ (count-cons name rest n
            ∙ ap (λ (l : List Str). if str_eq name n then suc (count l n) else count l n)
                (sym (waiting-remaining rest)))

    due : all_dependencies_completed (requires dag name) e.completed ≡ true
    due = i.ordered name (ground (arith, ahead name, str_eq_refl name))

    skip-Inv :
        (r : Result)
        → r.name ≡ name
        → Inv dag (send r (record e { executing = name ∷ e.executing; mode = remaining rest }))
    skip-Inv r is = record {
      once = λ n. omega (arith, same n, i.once n);
      marked = λ n. ground (arith, i.marked n, sent n, count-cons name e.executing n);
      ordered = λ n h. i.ordered n (omega (arith, same n, h));
      clean = i.clean;
      failures = i.failures;
      recorded = i.recorded;
      stopped = λ h. absurd (remaining-running rest h);
      at_rest = λ h. absurd (remaining-open rest h);
    }
      where
        sent :
            (n : Str)
            → count (names_of (e.result_chan ++ r ∷ [])) n
              ≡ count (names_of e.result_chan) n + (if str_eq name n then 1 else 0)
        sent n =
            names_of-snoc e.result_chan r n
            ∙ ap (λ (k : Str). count (names_of e.result_chan) n + (if str_eq k n then 1 else 0)) is

        same :
            (n : Str)
            → begun (send r (record e { executing = name ∷ e.executing; mode = remaining rest })) n
              ≡ begun e n
        same n = ground (arith, ahead n, sent n)

    run-Inv :
        has_failed_dependency (requires dag name) e.failed ≡ false
        → Inv dag (record e {
          executing = name ∷ e.executing;
          mode = remaining rest;
          running = name ∷ e.running;
        })
    run-Inv good = record {
      once = λ n. omega (arith, same n, i.once n);
      marked = λ n.
          ground (arith, i.marked n, count-cons name e.running n, count-cons name e.executing n);
      ordered = λ n h. i.ordered n (omega (arith, same n, h));
      clean = λ n h. spared n h (Bool-cases (str_eq name n));
      failures = i.failures;
      recorded = i.recorded;
      stopped = λ h. absurd (remaining-running rest h);
      at_rest = λ h. absurd (remaining-open rest h);
    }
      where
        same :
            (n : Str)
            → begun
                (record e {
                  executing = name ∷ e.executing;
                  mode = remaining rest;
                  running = name ∷ e.running;
                })
                n
              ≡ begun e n
        same n = ground (arith, ahead n, count-cons name e.running n)

        spared :
            (n : Str)
            → 0 < count (name ∷ e.running) n
            → (str_eq name n ≡ true) ⊎ (str_eq name n ≡ false)
            → has_failed_dependency (requires dag n) e.failed ≡ false
        spared n h (inl is) =
            subst (λ (k : Str). has_failed_dependency (requires dag k) e.failed ≡ false)
              ((str_eq_iff name n).0 is) good
        spared n h (inr other) = i.clean n (ground (arith, count-cons name e.running n))

    pub launch-Inv : Inv dag (start_step dag should_execute name rest e)
    unfolding start_step
    launch-Inv = elim (Bool-cases (has_failed_dependency (requires dag name) e.failed)) [
      | inl bad ↦ rw bad (skip-Inv _ refl)
      | inr good ↦ elim (Bool-cases (meets_condition should_execute (Dict.lookup name dag))) [
        | inl met ↦ rw (good, met) (run-Inv good)
        | inr unmet ↦ rw (good, unmet) (skip-Inv _ refl)
      ]
    ]
