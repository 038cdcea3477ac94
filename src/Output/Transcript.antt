-- ===== src/Output/Transcript.antt =====
-- What is printed over a whole run of the manager, for any interleaving of the executor's calls.
use buildfab.Base.{
  Str, Bool, true, not, List, [], ◌∷◌, ◌++◌, Option, none, some, ◌≡◌, refl, ap, arith, str_eq,
  str_eq_iff, All, Bool-cases, subst, inl, inr,
}
use buildfab.Base.Dict.{lookup-insert}
use buildfab.Config.{Step, Config}
use buildfab.Output.{
  OrderedOutputManager, StepOutputData, flag, data_of, new_manager, register_step, register_all,
  new_data,
}
use buildfab.Output.Flags.{Every, IsDistinct}
use buildfab.Output.Protocol.{progress, reads_from, reads}
use buildfab.Output.Invariant.{is_unshown, opt, names, Inv, InOrder, IsSettled}
use buildfab.Output.Calls.{
  Call, step_start, step_complete, step_output, step_error, call, run_calls, IsNamed,
  on_step_start-InOrder, on_step_complete-InOrder, on_step_output-InOrder, on_step_error-InOrder,
}

register_step-flag :
    (o : OrderedOutputManager) (n k : Str) (g : StepOutputData → Bool)
    → g new_data ≡ true
    → (flag g (data_of o k) ≡ true → flag g (data_of (register_step o n) k) ≡ true)
      × (str_eq n k ≡ true → flag g (data_of (register_step o n) k) ≡ true)
unfolding register_step
register_step-flag o n k g init = (
  λ h. elim (Bool-cases (str_eq n k)) [
    | inl same ↦ rw (lookup-insert, same) init
    | inr other ↦ rw (lookup-insert, other) h
  ],
  λ same. rw (lookup-insert, same) init,
)

register_all-keep :
    (l : List Step) (o : OrderedOutputManager) (k : Str) (g : StepOutputData → Bool)
    → g new_data ≡ true
    → flag g (data_of o k) ≡ true
    → flag g (data_of (register_all o l) k) ≡ true
unfolding register_all
register_all-keep [] o k g init h = h
register_all-keep (s ∷ l) o k g init h =
    register_all-keep l (register_step o s.action) k g init
      ((register_step-flag o s.action k g init).0 h)

register_all-Every :
    (l : List Step) (o : OrderedOutputManager) (g : StepOutputData → Bool)
    → g new_data ≡ true
    → Every (register_all o l) g l
unfolding register_all
register_all-Every [] o g init = tt
register_all-Every (s ∷ l) o g init = (
  register_all-keep l (register_step o s.action) s.action g init
      ((register_step-flag o s.action s.action g init).1 ((str_eq_iff s.action s.action).1 refl)),
  register_all-Every l (register_step o s.action) g init,
)

-- Registering writes the data only.
register_all-same :
    (l : List Step) (o : OrderedOutputManager)
    → ((register_all o l).steps ≡ o.steps)
      × ((register_all o l).current_step ≡ o.current_step)
      × ((register_all o l).log ≡ o.log)
unfolding register_all register_step
register_all-same [] o = (refl, refl, refl)
register_all-same (s ∷ l) o = register_all-same l (register_step o s.action)

module _ (steps : List Step) (verbose : Bool) (config : Option Config) where
  -- `NewOrderedStepCallback`
  unfoldable pub new_callback : OrderedOutputManager
  unfolding register_all
  new_callback = register_all (new_manager steps verbose config) steps

  new_callback-InOrder : InOrder steps new_callback
  unfolding new_callback reads_from
  new_callback-InOrder =
      let same = register_all-same steps (new_manager steps verbose config) in
      record {
        before = [];
        active = none;
        left = steps;
        inv = record {
          fixed = same.0;
          split = refl;
          printed = tt;
          current = same.1;
          running = tt;
          unshown = register_all-Every steps _ is_unshown refl;
          log = ap (reads (names steps)) same.2;
        };
        settled = settled_of steps (register_all-Every steps _ (λ d. not d.completed) refl);
      }
    where
      settled_of :
          (l : List Step)
          → Every (register_all (new_manager steps verbose config) steps) (λ d. not d.completed) l
          → IsSettled (register_all (new_manager steps verbose config) steps) l
      settled_of [] h = tt
      settled_of (s ∷ l) h = h.0

  call-InOrder :
      (o : OrderedOutputManager) (c : Call)
      → IsDistinct steps
      → IsNamed c
      → InOrder steps o
      → (o' : OrderedOutputManager) × (call o c ≡ some o') × InOrder steps o'
  unfolding call
  call-InOrder o (step_start n) apart named h = on_step_start-InOrder steps apart o n h
  call-InOrder o (step_complete n status message duration) apart named h =
      (_, refl, on_step_complete-InOrder steps apart o n status message duration named h)
  call-InOrder o (step_output n text) apart named h =
      (_, refl, on_step_output-InOrder steps apart o n text named h)
  call-InOrder o (step_error n err) apart named h =
      (_, refl, on_step_error-InOrder steps apart o n err h)

  calls-InOrder :
      (cs : List Call) (o : OrderedOutputManager)
      → IsDistinct steps
      → All IsNamed cs
      → InOrder steps o
      → (o' : OrderedOutputManager) × (run_calls o cs ≡ some o') × InOrder steps o'
  unfolding run_calls
  calls-InOrder [] o apart named h = (o, refl, h)
  calls-InOrder (c ∷ cs) o apart named h =
      let (o₁, e₁, h₁) = call-InOrder o c apart named.0 h in
      let (o₂, e₂, h₂) = calls-InOrder cs o₁ apart named.1 h₁ in (o₂, rw (e₁, run_calls) e₂, h₂)

  -- From a new callback for steps no two of which have one action, any sequence of calls by names
  -- that are not empty runs with no nil dereference; at its end the log reads as the steps in the
  -- order of their declaration, each a start line, output lines and its result line, the last one
  -- printed perhaps still without its result; the steps that are printed whole are completed, and
  -- the first step that is not is not completed, so no result is held back.
  pub run_calls-InOrder :
      (cs : List Call)
      → IsDistinct steps
      → All IsNamed cs
      → (o : OrderedOutputManager) × (run_calls new_callback cs ≡ some o) × InOrder steps o
  run_calls-InOrder cs apart named = calls-InOrder cs new_callback apart named new_callback-InOrder

  -- When a run of calls by names that are not empty, from a new callback for steps no two of which
  -- have one action, has completed every step, the log reads to its end: every step is printed in
  -- order with its result, and no step is active.
  pub run_calls_finished :
      (cs : List Call) (o : OrderedOutputManager)
      → IsDistinct steps
      → All IsNamed cs
      → run_calls new_callback cs ≡ some o
      → Every o (λ d. d.completed) steps
      → (reads (names steps) o.log ≡ some (progress none [])) × (o.current_step ≡ [])
  run_calls_finished cs o apart named e all =
      let (o', e', h) = run_calls-InOrder cs apart named in
      let same : o' ≡ o = cc in finished o (subst (InOrder steps) same h) all
    where
      clash :
          (x : Option StepOutputData)
          → flag (λ d. d.completed) x ≡ true
          → ¬ (flag (λ d. not d.completed) x ≡ true)
      clash none h k = cc
      clash (some d) h k = ground arith

      tail_of :
          (m : OrderedOutputManager) (xs ys : List Step)
          → Every m (λ d. d.completed) (xs ++ ys)
          → Every m (λ d. d.completed) ys
      tail_of m [] ys h = h
      tail_of m (x ∷ xs) ys h = tail_of m xs ys h.1

      by_rest :
          (m : OrderedOutputManager) (before : List Step) (active : Option Step) (left : List Step)
          → Inv steps m before active left
          → IsSettled m (opt active ++ left)
          → Every m (λ d. d.completed) (opt active ++ left)
          → (reads (names steps) m.log ≡ some (progress none [])) × (m.current_step ≡ [])
      by_rest m before none [] i st h = (i.log, i.current)
      by_rest m before none (s ∷ left) i st h = absurd (clash (data_of m s.action) h.0 st)
      by_rest m before (some s) left i st h = absurd (clash (data_of m s.action) h.0 st)

      finished :
          (m : OrderedOutputManager)
          → InOrder steps m
          → Every m (λ d. d.completed) steps
          → (reads (names steps) m.log ≡ some (progress none [])) × (m.current_step ≡ [])
      finished m h all = by_rest m h.before h.active h.left h.inv h.settled (
          tail_of m h.before (opt h.active ++ h.left)
            (subst (λ (l : List Step). Every m (λ d. d.completed) l) h.inv.split all))
