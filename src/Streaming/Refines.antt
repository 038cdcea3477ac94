-- ===== src/Streaming/Refines.antt =====
-- A run that is not cancelled refines the executor with a callback, so what holds of its results holds here.
use buildfab.Base.{
  Str, Bool, true, false, List, [], ◌∷◌, ◌≡◌, ◌≢◌, refl, sym, ap, ◌∙◌, subst, arith, contains,
  without, count, count-without, contains-count, count-cons, absent-count, count-nil, if◌then◌else◌,
  ◌≤◌, ◌<◌, ◌+◌, ◌⊎◌, inl, inr, Bool-cases,
}
use buildfab.Base.Dict
use buildfab.Config.{Step}
use buildfab.Dag.{Dag}
use buildfab.Executor
use buildfab.Executor.{
  Execution, Result, Mode, scanning, starting, draining, closed, initial, dependencies_of, Next,
  Reachable, all_dependencies_completed, scanned, scan, start_step, send, handle_result, set_mode,
  is_ready, ready_steps, all_done, finish, named_result, remaining,
}
use buildfab.Executor.Kept.{Reachable-Inv}
use buildfab.Streaming.{
  get_ready_steps_locked, all_under_way, looked, look_locked, deliver, drop_result, Streaming, live,
  crashed, StreamNext, StreamReachable, look, launch, complete, leave, crash, handle, cancel,
  abandon, close, give_up, begin, then_next,
}
use buildfab.Streaming.Locked.{ready-locked, IsCovered, all_under_way-IsCovered, all_completed}

module _ (dag : Dag) (should_execute : Step → Bool)
    (distinct : (n : Str) → count (Dict.keys dag) n ≤ 1) where
  -- The executor does the same in another mode: it may still be looking for steps when all of them are
  -- under way.
  pub record Simulated (s : Execution) : Type 0 where
    pub mode : Mode
    pub reachable : Reachable dag should_execute (record s { mode = mode })
    pub behind_by :
        (mode ≡ s.mode)
        ⊎ ((s.mode ≡ draining) × (mode ≡ scanning) × IsCovered dag should_execute distinct s)

  -- The mode of the executor is that of a state that is not yet draining.
  same_mode :
      (s : Execution) (m : Mode)
      → s.mode ≢ draining
      → (m ≡ s.mode)
        ⊎ ((s.mode ≡ draining) × (m ≡ scanning) × IsCovered dag should_execute distinct s)
      → m ≡ s.mode
  same_mode s m apart (inl e) = e
  same_mode s m apart (inr (d, _, _)) = absurd (apart d)

  simulate_look :
      (p : Execution) (names : List Str)
      → ((n : Str) → count names n ≡ count (Dict.keys dag) n)
      → p.mode ≡ scanning
      → p.cancelled ≡ false
      → (look_locked dag names p).mode ≢ scanning
      → Simulated p
      → Simulated (look_locked dag names p)
  unfolding look_locked scan scanned looked
  simulate_look p names same at_scan running_on moved before =
      by_ready (get_ready_steps_locked dag p names) refl
    where
      at : before.mode ≡ scanning
      at = same_mode p before.mode (λ d. cc) before.behind_by ∙ at_scan

      ready :
          get_ready_steps_locked dag p names
          ≡ ready_steps dag (record p { mode = before.mode }) names
      ready =
          ready-locked dag should_execute distinct p before.mode names
            (Reachable-Inv dag should_execute distinct before.reachable).failures

      found :
          (modes : (scan dag names (record p { mode = before.mode })).mode
            ≡ (look_locked dag names p).mode)
          → Simulated (look_locked dag names p)
      found modes = record {
        mode = (look_locked dag names p).mode;
        reachable =
            subst (λ m. Reachable dag should_execute (record p { mode = m })) modes
              (Executor.then_next before.reachable
                (Executor.look names same at running_on (λ e. moved (sym modes ∙ e))));
        behind_by = inl refl;
      }

      by_ready :
          (steps : List Str)
          → get_ready_steps_locked dag p names ≡ steps
          → Simulated (look_locked dag names p)
      by_ready (n ∷ ns) is = found (
          ap (scanned (record p { mode = before.mode }) names) (sym ready ∙ is)
          ∙ sym (ap (looked p names) is))
      by_ready [] is = elim (Bool-cases (all_under_way p names)) [
        | inr waits ↦
            absurd
              (moved (ap (looked p names) is ∙ ap (λ b. if b then draining else scanning) waits))
        | inl covered ↦ record {
          mode = scanning;
          reachable =
              subst (λ m. Reachable dag should_execute (record p { mode = m })) at before.reachable;
          behind_by = inr (
            ap (looked p names) is ∙ ap (λ b. if b then draining else scanning) covered,
            refl,
            all_under_way-IsCovered dag should_execute distinct p names same covered,
          );
        }
      ]

  simulate_launch :
      (p : Execution) (name : Str) (rest : List Str)
      → p.mode ≡ starting name rest
      → p.cancelled ≡ false
      → Simulated p
      → Simulated (start_step dag should_execute name rest p)
  unfolding start_step
  simulate_launch p name rest at_start running_on before =
      let m = same_mode p before.mode (λ d. cc) before.behind_by in
      record {
        mode = (start_step dag should_execute name rest p).mode;
        reachable =
            Executor.then_next before.reachable
              (Executor.launch name rest (m ∙ at_start) running_on);
        behind_by = inl refl;
      }

  simulate_complete :
      (p : Execution) (name : Str) (r : Result)
      → contains p.running name ≡ true
      → p.cancelled ≡ false
      → Simulated p
      → Simulated (deliver name r p)
  unfolding deliver finish named_result
  simulate_complete p name r runs running_on before = record {
    mode = before.mode;
    reachable =
        subst
          (λ c. Reachable dag should_execute (
            send (named_result c name r)
              (record p { running = without name p.running; mode = before.mode })))
          running_on (Executor.then_next before.reachable (Executor.complete name r runs));
    behind_by = before.behind_by;
  }

  simulate_handle :
      (p : Execution) (r : Result) (rest : List Result)
      → p.result_chan ≡ r ∷ rest
      → Simulated p
      → Simulated (handle_result r rest p)
  unfolding handle_result
  simulate_handle p r rest is before = record {
    mode = before.mode;
    reachable = Executor.then_next before.reachable (Executor.handle r rest is);
    behind_by = elim before.behind_by [
      | inl same ↦ inl same
      | inr (d, m, covered) ↦ inr (
        d,
        m,
        λ n. ground (
          arith,
          covered n,
          distinct n,
          count-cons r.name p.completed n,
          count-without r.name p.executing n,
        ),
      )
    ];
  }

  simulate_close :
      (p : Execution)
      → p.mode ≡ draining
      → p.executing ≡ []
      → p.cancelled ≡ false
      → Simulated p
      → Simulated (set_mode closed p)
  unfolding scan scanned
  simulate_close p drains idle running_on before = elim before.behind_by [
    | inl same ↦ record {
      mode = closed;
      reachable = Executor.then_next before.reachable (Executor.close (same ∙ drains) idle);
      behind_by = inl refl;
    }
    | inr (d, m, covered) ↦
        let e = record p { mode = before.mode } in
        let (r, a) =
          all_completed dag should_execute distinct e (Dict.keys dag)
            (λ n h. done n (contains-count (Dict.keys dag) n h) (covered n)) in
        let drained : (scan dag (Dict.keys dag) e).mode ≡ draining =
          ap (scanned e (Dict.keys dag)) r ∙ ap (λ b. if b then draining else scanning) a in
        record {
          mode = closed;
          reachable =
              Executor.then_next
                (Executor.then_next before.reachable (
                  Executor.look (Dict.keys dag) (λ n. refl) m running_on
                    (λ at. let no : draining ≡ scanning = sym drained ∙ at in cc)))
                (Executor.close drained idle);
          behind_by = inl refl;
        }
  ]
    where
      done :
          (n : Str)
          → 0 < count (Dict.keys dag) n
          → count (Dict.keys dag) n ≤ count p.completed n + count p.executing n
          → contains p.completed n ≡ true
      done n here covered = elim (Bool-cases (contains p.completed n)) [
        | inl there ↦ there
        | inr missing ↦
            let a = absent-count p.completed n missing in
            let b = ap (λ (l : List Str). count l n) idle ∙ count-nil n in absurd (omega arith)
      ]

  -- What a run that is not cancelled leads to is simulated.
  abbrev pub Goal : Streaming → Type 0
  Goal crashed = Unit
  Goal (live s) = s.cancelled ≡ false → Simulated s

  simulate :
      (p : Execution) (s : Streaming) → Goal (live p) → StreamNext dag should_execute p s → Goal s
  unfolding look_locked deliver drop_result handle_result
  simulate p _ before (look names same at on moved) =
      λ c. simulate_look p names same at on moved (before c)
  simulate p _ before (launch name rest at on) = λ c. simulate_launch p name rest at on (before on)
  simulate p _ before (complete name r runs alive) =
      λ c. simulate_complete p name r runs c (before c)
  simulate p _ before (leave name runs gone) = λ c. cc
  simulate p _ before (crash name runs shut) = tt
  simulate p _ before (handle r rest is) = λ c. simulate_handle p r rest is (before c)
  simulate p _ before (cancel on) = λ c. cc
  simulate p _ before (abandon gone a b) = λ c. cc
  simulate p _ before (close drains idle) = λ c. simulate_close p drains idle c (before c)
  simulate p _ before (give_up drains gone) = λ c. cc

  pub reached : {s : Streaming} → StreamReachable dag should_execute s → Goal s
  reached begin = λ c. record { mode = scanning; reachable = Executor.begin; behind_by = inl refl }
  reached (then_next {e} {s} r n) = simulate e s (reached r) n
