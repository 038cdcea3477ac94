-- ===== src/Output/Turns.antt =====
-- What each thing that the manager prints does to the invariant.
use buildfab.Base.{
  Str, Bool, true, List, [], ◌∷◌, ◌++◌, Option, none, some, ◌≡◌, refl, sym, ◌∙◌, ap, arith,
  str_eq_refl, Bool-cases, subst, inl, inr,
}
use mathlib.Core.List.{append_assoc}
use buildfab.Base.Dict
use buildfab.Config.{Step}
use buildfab.Output.{
  OrderedOutputManager, StepOutputData, start, line, flag, data_of, activate, show_step_start,
  show_step_output, show_step_completion, show_lines, flush, flush_buffered_output, show_active,
  show_completed_step,
}
use buildfab.Output.Flags.{
  update_data-Same, Absent, IsDistinct, flag_self, flag_keep, Every-keep, Every-Absent,
  Every-append,
}
use buildfab.Output.Protocol.{read_event, reads, reads-snoc}
use buildfab.Output.Invariant.{is_printed, is_shown, is_unshown, names, Inv, Inv-keep}

pub flag_mono :
    (g h : StepOutputData → Bool) (x : Option StepOutputData)
    → ((d : StepOutputData) → g d ≡ true → h d ≡ true)
    → flag g x ≡ true
    → flag h x ≡ true
flag_mono g h none k e = e
flag_mono g h (some d) k e = k d e

pub IsDistinct-behind :
    (before : List Step) (s : Step) (left : List Step)
    → IsDistinct (before ++ s ∷ left)
    → Absent s.action left
IsDistinct-behind [] s left apart = apart.0
IsDistinct-behind (b ∷ before) s left apart = IsDistinct-behind before s left apart.1

show_lines-data :
    (o : OrderedOutputManager) (output : List Str) → (show_lines o output).step_data ≡ o.step_data
unfolding show_lines show_step_output
show_lines-data o [] = refl
show_lines-data o (x ∷ output) = show_lines-data (show_step_output o x) output ∙ ground arith

pub flush-keep :
    (o : OrderedOutputManager) (n k : Str) (x : Option StepOutputData) (g : StepOutputData → Bool)
    → ((d : StepOutputData) → g d ≡ true → g (record d { output = [] }) ≡ true)
    → flag g (data_of o k) ≡ true
    → flag g (data_of (flush o n x) k) ≡ true
unfolding flush
flush-keep o n k none g keep h = h
flush-keep o n k (some d) g keep h =
    flag_keep (show_lines o d.output) n (λ e. record e { output = [] }) g k keep
      (ap (λ (m : Dict.Dict StepOutputData). flag g (Dict.lookup k m)) (show_lines-data o d.output)
        ∙ h)

-- A flag that neither the start line nor the flush touches.
pub show_active-keep :
    (o : OrderedOutputManager) (n k : Str) (g : StepOutputData → Bool)
    → ((d : StepOutputData) → g d ≡ true → g (record d { shown = true }) ≡ true)
    → flag g (data_of o k) ≡ true
    → flag g (data_of (show_active o n) k) ≡ true
unfolding show_step_start
show_active-keep o n k g keep h =
    flag_keep (show_step_start o n) n (λ d. record d { shown = true }) g k keep h

module _ (steps before : List Step) (s : Step) (left : List Step) where
  abbrev Busy : OrderedOutputManager → Type 0
  Busy o = Inv steps o before (some s) left

  pub show_step_output-Inv :
      (o : OrderedOutputManager) (output : Str) → Busy o → Busy (show_step_output o output)
  unfolding show_step_output read_event
  show_step_output-Inv o output i = elim (Bool-cases o.verbose) [
    | inl loud ↦ simp loud (record {
      fixed = i.fixed;
      split = i.split;
      printed = i.printed;
      current = i.current;
      running = i.running;
      unshown = i.unshown;
      log = reads-snoc (names steps) o.log (line output) _ i.log;
    })
    | inr quiet ↦ simp quiet i
  ]

  show_lines-Inv :
      (o : OrderedOutputManager) (output : List Str) → Busy o → Busy (show_lines o output)
  unfolding show_lines
  show_lines-Inv o [] i = i
  show_lines-Inv o (x ∷ output) i =
      show_lines-Inv (show_step_output o x) output (show_step_output-Inv o x i)

  pub flush-Inv :
      (o : OrderedOutputManager) (x : Option StepOutputData) → Busy o → Busy (flush o s.action x)
  unfolding flush
  flush-Inv o none i = i
  flush-Inv o (some d) i =
      Inv-keep s.action (λ e. record e { output = [] }) (λ e. (refl, refl))
        (show_lines-Inv o d.output i)

  -- The start line of the next step.
  pub show_active-Inv :
      (o : OrderedOutputManager)
      → IsDistinct steps
      → Inv steps o before none (s ∷ left)
      → Busy (show_active o s.action)
  unfolding show_step_start read_event
  show_active-Inv o apart i =
      let o₁ = show_step_start o s.action in
      let shown = λ (d : StepOutputData). record d { shown = true } in
      let same = update_data-Same o₁ s.action shown in
      let off = IsDistinct-behind before s left (subst IsDistinct i.split apart) in
      record {
        fixed = same.steps ∙ i.fixed;
        split = i.split;
        printed = Every-keep o₁ s.action shown is_printed before (λ d h. ground arith) i.printed;
        current = refl;
        running = (
          flag_self o₁ s.action shown is_shown
              ∙ flag_mono is_unshown (λ d. true) (data_of o s.action) (λ d h. refl) i.unshown.0,
          tt,
        );
        unshown = Every-Absent o₁ s.action shown is_unshown left off i.unshown.1;
        log =
            ap (reads (names steps)) same.log
            ∙ reads-snoc (names steps) o.log (start s.action) _ i.log
            ∙ simp (str_eq_refl);
      }

  completion-Inv :
      (o : OrderedOutputManager) (x : Option StepOutputData)
      → data_of o s.action ≡ x
      → flag (λ d. d.completed) x ≡ true
      → Busy o
      → Inv steps (activate (show_step_completion o s.action x) []) (before ++ s ∷ []) none left
  unfolding show_step_completion read_event
  completion-Inv o none e h i = cc
  completion-Inv o (some d) e h i = record {
    fixed = i.fixed;
    split = i.split ∙ sym (append_assoc before (s ∷ []) left);
    printed =
        Every-append o is_printed before (s ∷ []) i.printed
          (ap (flag is_printed) e ∙ ground (arith, ap (flag is_shown) (sym e) ∙ i.running.0), tt);
    current = refl;
    running = tt;
    unshown = i.unshown;
    log = reads-snoc (names steps) o.log _ _ i.log ∙ simp (str_eq_refl);
  }

  -- The result line of the step that is being printed.
  pub show_step_completion-Inv :
      (o : OrderedOutputManager)
      → flag (λ d. d.completed) (data_of o s.action) ≡ true
      → Busy o
      → Inv steps
          (activate (show_step_completion o s.action (data_of o s.action)) [])
          (before ++ s ∷ [])
          none
          left
  show_step_completion-Inv o h i = completion-Inv o (data_of o s.action) refl h i

  -- A completed step whose turn it is: all of its lines.
  pub show_completed_step-Inv :
      (o : OrderedOutputManager)
      → IsDistinct steps
      → flag (λ d. d.completed) (data_of o s.action) ≡ true
      → Inv steps o before none (s ∷ left)
      → Inv steps (show_completed_step o s.action) (before ++ s ∷ []) none left
  unfolding show_completed_step
  show_completed_step-Inv o apart h i =
      let active = show_active o s.action in
      let o' = flush_buffered_output active s.action in
      show_step_completion-Inv o'
        (flush-keep active s.action s.action (data_of active s.action) (λ d. d.completed) (λ d k. k)
          (show_active-keep o s.action s.action (λ d. d.completed) (λ d k. k) h))
        (flush-Inv active (data_of active s.action) (show_active-Inv o apart i))
