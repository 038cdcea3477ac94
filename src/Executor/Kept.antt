-- ===== src/Executor/Kept.antt =====
-- Every step of every goroutine keeps the invariant of the executor.
use buildfab.Base.{
  suc, Str, Bool, true, false, List, [], ◌∷◌, ◌++◌, ◌≡◌, refl, sym, ◌∙◌, ap, subst, ◌⊎◌, inl, inr,
  arith, contains, without, count, ◌+◌, ◌≤◌, ◌<◌, str_eq, str_eq_iff, str_eq_refl, contains-count,
  count-cons, count-nil, count-without, if◌then◌else◌, Bool-cases,
}
use buildfab.Base.Dict
use buildfab.Config.{Step}
use buildfab.Dag.{Dag}
use buildfab.Output.Status.{status_eq, error}
use buildfab.Executor.{
  Execution, Result, initial, has_failed_dependency, ready_steps, scan, finish, handle_result,
  named_result, Next, look, launch, complete, handle, cancel, abandon, close, Reachable, begin,
  then_next,
}
use buildfab.Executor.Invariant.{
  names_of, begun, requires, IsStopped, Inv, dependencies_completed-cons, failed_dependency-cons,
  names_of-snoc,
}
use buildfab.Executor.Starting.{look-Inv, launch-Inv}

named_result-name :
    (cancelled : Bool) (name : Str) (r : Result) → (named_result cancelled name r).name ≡ name
unfolding named_result
named_result-name true name r = refl
named_result-name false name r = refl

without_nil : (n : Str) → without n [] ≡ []
unfolding without
without_nil n = refl

-- A name is one that the range yields, and no map has a key twice.
module _ (dag : Dag) (should_execute : Step → Bool)
    (distinct : (n : Str) → count (Dict.keys dag) n ≤ 1) where
  initial-Inv : Inv dag initial
  unfolding count
  initial-Inv = record {
    once = λ n. omega arith;
    marked = λ n. refl;
    ordered = λ n h. absurd (none_begun h);
    clean = λ n h. absurd (none_begun h);
    failures = λ n. omega arith;
    recorded = λ n. refl;
    stopped = λ h. absurd h;
    at_rest = λ h. refl;
  }
    where
      none_begun : ¬ (0 < 0)
      none_begun h = omega (arith, h)

  complete-Inv :
      (e : Execution) (name : Str) (r : Result)
      → contains e.running name ≡ true
      → Inv dag e
      → Inv dag (finish name r e)
  unfolding finish
  complete-Inv e name r on i = record {
    failures = i.failures;
    recorded = i.recorded;
    stopped = i.stopped;
    at_rest = i.at_rest;
    once = λ n. omega (arith, same n, i.once n);
    marked = λ n. ground (arith, i.marked n, moved n);
    ordered = λ n h. i.ordered n (omega (arith, same n, h));
    clean = λ n h. i.clean n (ground (arith, count-without name e.running n));
  }
    where
      sent :
          (n : Str)
          → count (names_of (e.result_chan ++ named_result e.cancelled name r ∷ [])) n
            ≡ count (names_of e.result_chan) n + (if str_eq name n then 1 else 0)
      sent n =
          names_of-snoc e.result_chan (named_result e.cancelled name r) n
          ∙ ap (λ (k : Str). count (names_of e.result_chan) n + (if str_eq k n then 1 else 0))
              (named_result-name e.cancelled name r)

      moved :
          (n : Str)
          → count (without name e.running) n
              + count (names_of (e.result_chan ++ named_result e.cancelled name r ∷ [])) n
            ≡ count e.running n + count (names_of e.result_chan) n
      moved n = ground (
        arith,
        sent n,
        count-without name e.running n,
        contains-count e.running name on,
        i.once n,
        distinct n,
        str_eq_iff name n,
      )

      same : (n : Str) → begun (finish name r e) n ≡ begun e n
      same n = omega (arith, moved n)

  handle-Inv :
      (e : Execution) (r : Result) (rest : List Result)
      → e.result_chan ≡ r ∷ rest
      → Inv dag e
      → Inv dag (handle_result r rest e)
  unfolding handle_result
  handle-Inv e r rest c i = record {
    once = λ n. omega (arith, same n, i.once n);
    marked = λ n.
        ground
          (arith, i.marked n, here n, i.once n, distinct n, count-without r.name e.executing n);
    ordered = λ n h.
        dependencies_completed-cons (requires dag n) r.name e.completed
          (i.ordered n (omega (arith, same n, h)));
    clean = λ n h. spared n h (Bool-cases (status_eq r.status error));
    failures = λ n.
        ground (arith, i.failures n, count-cons r.name e.completed n, count-cons r.name e.failed n);
    recorded = λ n.
        ground (arith, i.recorded n, count-cons r.name e.completed n, names_of-snoc e.results r n);
    stopped = λ h. elim (i.stopped h) [
      | inl x ↦ inl x
      | inr all ↦ inr (λ n. ground (arith, all n, count-cons r.name e.completed n))
    ];
    at_rest = λ h. ap (without r.name) (i.at_rest h) ∙ without_nil r.name;
  }
    where
      here :
          (n : Str)
          → count (names_of e.result_chan) n
            ≡ (if str_eq r.name n then suc (count (names_of rest) n) else count (names_of rest) n)
      here n =
          ap (λ (l : List Result). count (names_of l) n) c ∙ count-cons r.name (names_of rest) n

      same : (n : Str) → begun (handle_result r rest e) n ≡ begun e n
      same n = ground (arith, here n, count-cons r.name e.completed n)

      fresh : contains e.completed r.name ≡ false
      fresh = elim (Bool-cases (contains e.completed r.name)) [
        | inl seen ↦ absurd (clash (contains-count e.completed r.name seen))
        | inr unseen ↦ unseen
      ]
        where
          clash : ¬ (0 < count e.completed r.name)
          clash h = ground (arith, i.once r.name, distinct r.name, here r.name, str_eq_refl r.name)

      spared :
          (n : Str)
          → 0 < count e.running n
          → (status_eq r.status error ≡ true) ⊎ (status_eq r.status error ≡ false)
          → has_failed_dependency
              (requires dag n)
              (if status_eq r.status error then r.name ∷ e.failed else e.failed)
            ≡ false
      spared n h (inl bad) = rw bad (
          failed_dependency-cons (requires dag n) r.name e.completed e.failed
            (i.ordered n (omega (arith, h))) fresh (i.clean n h))
      spared n h (inr good) = rw good (i.clean n h)

  Next-Inv : {e e' : Execution} → Next dag should_execute e e' → Inv dag e → Inv dag e'
  unfolding scan
  Next-Inv {e} (look names visits idle live found) i =
      look-Inv dag should_execute distinct e names visits idle i (ready_steps dag e names) refl
  Next-Inv {e} (launch name rest m live) i = launch-Inv dag should_execute distinct e name rest m i
  Next-Inv {e} (complete name r on) i = complete-Inv e name r on i
  Next-Inv {e} (handle r rest c) i = handle-Inv e r rest c i
  Next-Inv {e} (cancel live) i = record {
    once = i.once;
    marked = i.marked;
    ordered = i.ordered;
    clean = i.clean;
    failures = i.failures;
    recorded = i.recorded;
    stopped = λ h. inl refl;
    at_rest = i.at_rest;
  }
  Next-Inv {e} (abandon gone open_ unclosed) i = record {
    once = λ n. omega (arith, i.once n, count-nil n);
    marked = i.marked;
    ordered = λ n h. i.ordered n (omega (arith, h, count-nil n));
    clean = i.clean;
    failures = i.failures;
    recorded = i.recorded;
    stopped = λ h. inl gone;
    at_rest = λ h. cc;
  }
  Next-Inv {e} (close waits rested) i = record {
    once = λ n. omega (arith, i.once n, count-nil n);
    marked = i.marked;
    ordered = λ n h. i.ordered n (omega (arith, h, count-nil n));
    clean = i.clean;
    failures = i.failures;
    recorded = i.recorded;
    stopped = λ h. i.stopped (subst IsStopped (sym waits) tt);
    at_rest = λ h. rested;
  }

  pub Reachable-Inv : {e : Execution} → Reachable dag should_execute e → Inv dag e
  Reachable-Inv begin = initial-Inv
  Reachable-Inv (then_next before next) = Next-Inv next (Reachable-Inv before)
