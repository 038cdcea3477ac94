-- ===== src/Output/Calls.antt =====
-- The calls that the executor makes on the manager, one by one and in any sequence.
use buildfab.Base.{
  Str, Bool, true, false, not, List, [], ◌∷◌, ◌++◌, Option, none, some, ◌≡◌, refl, sym, ◌∙◌, ap,
  ◌≢◌, arith, str_eq, str_eq_iff, Bool-cases, subst, inl, inr, ℕ,
}
use buildfab.Base.Dict
use buildfab.Config.{Step}
use buildfab.Output.Status.{StepStatus}
use buildfab.Output.{
  OrderedOutputManager, StepOutputData, flag, data_of, update_data, activate, can_show_step_start,
  show_active, check_and_show_completed_steps, start_shown, on_step_start, show_step_output,
  on_step_complete, on_step_output, on_step_error, show_step_completion,
}
use buildfab.Output.Flags.{
  update_data-Same, Every, IsDistinct, flag_keep, flag_self, flag_other, Every-append,
}
use buildfab.Output.Invariant.{
  is_printed, is_shown, is_unshown, opt, Inv, Inv-keep, Inv-complete, InOrder, IsSettled,
}
use buildfab.Output.Turns.{flag_mono, show_step_output-Inv, show_step_completion-Inv}
use buildfab.Output.Scan.{can_show_step_start-walk, completed_before, completed_before-registered}
use buildfab.Output.Order.{
  check_completed-InOrder, check_completed-busy, show_next-InOrder, show_next_from-InOrder,
}

-- A call of one of the four methods, by a step's name.
pub data Call : Type 0 where
  step_start : Str → Call
  step_complete : Str → StepStatus → Str → ℕ → Call
  step_output : Str → Str → Call
  step_error : Str → Str → Call

unfoldable pub call : OrderedOutputManager → Call → Option OrderedOutputManager
call o (step_start n) = on_step_start o n
call o (step_complete n status message duration) =
    some (on_step_complete o n status message duration)
call o (step_output n text) = some (on_step_output o n text)
call o (step_error n err) = some (on_step_error o n err)

-- The empty name stands for no step.
abbrev pub IsNamed : Call → Type 0
IsNamed (step_start n) = n ≢ []
IsNamed (step_complete n _ _ _) = n ≢ []
IsNamed (step_output n _) = n ≢ []
IsNamed (step_error n _) = n ≢ []

unfoldable pub run_calls : OrderedOutputManager → List Call → Option OrderedOutputManager
run_calls o [] = some o
run_calls o (c ∷ cs) = elim (call o c) [ none ↦ none | some o' ↦ run_calls o' cs ]

module _ (steps : List Step) (apart : IsDistinct steps) where
  -- A write that keeps the three tests.
  keep-InOrder :
      (o : OrderedOutputManager) (n : Str) (f : StepOutputData → StepOutputData)
      → ((d : StepOutputData) → ((f d).shown ≡ d.shown) × ((f d).completed ≡ d.completed))
      → InOrder steps o
      → InOrder steps (update_data o n f)
  keep-InOrder o n f keep h = record {
    before = h.before;
    active = h.active;
    left = h.left;
    inv = Inv-keep n f keep h.inv;
    settled = settled_keep (opt h.active ++ h.left) h.settled;
  }
    where
      settled_keep : (l : List Step) → IsSettled o l → IsSettled (update_data o n f) l
      settled_keep [] e = e
      settled_keep (s ∷ _) e =
          flag_keep o n f (λ d. not d.completed) s.action (λ d k. ground (arith, keep d)) e

  show_step_output-data :
      (m : OrderedOutputManager) (output : Str)
      → (show_step_output m output).step_data ≡ m.step_data
  unfolding show_step_output
  show_step_output-data m output = ground arith

  -- Output of the step that the manager prints, by the two cases of the invariant.
  at_current :
      (m : OrderedOutputManager) (n output : Str) (before : List Step) (active : Option Step)
      (left : List Step)
      → n ≢ []
      → Inv steps m before active left
      → IsSettled m (opt active ++ left)
      → m.current_step ≡ n
      → InOrder steps (show_step_output m output)
  at_current m n output before none left named i open_s e = absurd (named (sym e ∙ i.current))
  at_current m n output before (some s) left named i open_s e = record {
    before = before;
    active = some s;
    left = left;
    inv = show_step_output-Inv steps before s left m output i;
    settled =
        ap (λ (t : Dict.Dict StepOutputData). flag (λ d. not d.completed) (Dict.lookup s.action t))
          (show_step_output-data m output)
        ∙ open_s;
  }

  pub on_step_output-InOrder :
      (o : OrderedOutputManager) (n output : Str)
      → n ≢ []
      → InOrder steps o
      → InOrder steps (on_step_output o n output)
  unfolding on_step_output
  on_step_output-InOrder o n output named h =
      let o' = update_data o n (λ d. record d { output = d.output ++ output ∷ [] }) in
      let h' =
        keep-InOrder o n (λ d. record d { output = d.output ++ output ∷ [] }) (λ d. (refl, refl))
          h in
      elim (Bool-cases (str_eq o'.current_step n)) [
        | inl same ↦ rw same (
            at_current o' n output h'.before h'.active h'.left named h'.inv h'.settled
              ((str_eq_iff o'.current_step n).0 same))
        | inr other ↦ rw other h'
      ]

  pub on_step_error-InOrder :
      (o : OrderedOutputManager) (n err : Str)
      → InOrder steps o
      → InOrder steps (on_step_error o n err)
  unfolding on_step_error
  on_step_error-InOrder o n err h =
      keep-InOrder o n (λ d. record d { error = some err }) (λ d. (refl, refl)) h

  -- The write of `OnStepComplete`.
  abbrev completion : StepStatus → Str → ℕ → StepOutputData → StepOutputData
  completion status message duration d = record d {
    completed = true;
    status = status;
    message = message;
    duration = duration;
  }

  -- A step other than the current one is completed.
  complete_other :
      (o : OrderedOutputManager) (n : Str) (f : StepOutputData → StepOutputData)
      (before : List Step) (active : Option Step) (left : List Step)
      → ((d : StepOutputData) → ((f d).shown ≡ d.shown) × ((f d).completed ≡ true))
      → Inv steps o before active left
      → IsSettled o (opt active ++ left)
      → str_eq o.current_step n ≡ false
      → InOrder steps (check_and_show_completed_steps (update_data o n f))
  complete_other o n f before none left done i open_s e =
      check_completed-InOrder steps apart before left (update_data o n f) (Inv-complete n f done i)
  complete_other o n f before (some s) left done i open_s e =
      check_completed-busy steps apart (update_data o n f) before s left (Inv-complete n f done i)
        (flag_other o n f (λ d. not d.completed) s.action apart_n ∙ open_s)
    where
      apart_n : str_eq n s.action ≡ false
      apart_n = elim (Bool-cases (str_eq n s.action)) [
        | inl same ↦
            cc (
              e,
              (str_eq_iff o.current_step n).1 (i.current ∙ sym ((str_eq_iff n s.action).0 same)),
            )
        | inr other ↦ other
      ]

  -- The current step is completed: its result is printed at once.
  complete_current :
      (o : OrderedOutputManager) (n : Str) (f : StepOutputData → StepOutputData)
      (before : List Step) (active : Option Step) (left : List Step)
      → n ≢ []
      → ((d : StepOutputData) → ((f d).shown ≡ d.shown) × ((f d).completed ≡ true))
      → Inv steps o before active left
      → o.current_step ≡ n
      → InOrder steps (
          check_and_show_completed_steps (
            activate
              (show_step_completion (update_data o n f) n (data_of (update_data o n f) n))
              []))
  complete_current o n f before none left named done i e = absurd (named (sym e ∙ i.current))
  complete_current o n f before (some s) left named done i e =
      let same = sym i.current ∙ e in
      subst
        (λ (m : Str). InOrder steps (
          check_and_show_completed_steps (
            activate (show_step_completion (update_data o m f) m (data_of (update_data o m f) m))
              [])))
        same
        (check_completed-InOrder steps apart (before ++ s ∷ []) left _ (
          show_step_completion-Inv steps before s left (update_data o s.action f)
            (flag_self o s.action f (λ d. d.completed)
              ∙ flag_mono is_shown (λ d. (f d).completed) (data_of o s.action) (λ d h. (done d).1)
                  i.running.0)
            (Inv-complete s.action f done i)))

  pub on_step_complete-InOrder :
      (o : OrderedOutputManager) (n : Str) (status : StepStatus) (message : Str) (duration : ℕ)
      → n ≢ []
      → InOrder steps o
      → InOrder steps (on_step_complete o n status message duration)
  unfolding on_step_complete
  on_step_complete-InOrder o n status message duration named h =
      let f = completion status message duration in
      let o₁ = update_data o n f in
      let current = (update_data-Same o n f).current in
      elim (Bool-cases (str_eq o₁.current_step n)) [
        | inl same ↦ rw same (
            show_next_from-InOrder steps apart _ _ (
              complete_current o n f h.before h.active h.left named (λ d. (refl, refl)) h.inv
                (sym current ∙ (str_eq_iff o₁.current_step n).0 same)))
        | inr other ↦ rw other (
            show_next_from-InOrder steps apart _ _ (
              complete_other o n f h.before h.active h.left (λ d. (refl, refl)) h.inv h.settled
                (ap (λ (c : Str). str_eq c n) (sym current) ∙ other)))
      ]

  -- Every step is registered.
  registered :
      (o : OrderedOutputManager) (before : List Step) (active : Option Step) (left : List Step)
      → Inv steps o before active left
      → Every o (λ d. true) (before ++ (opt active ++ left))
  registered o before active left i =
      Every-append o (λ d. true) before (opt active ++ left) (weaken is_printed before i.printed)
        (Every-append o (λ d. true) (opt active) left (weaken is_shown (opt active) i.running)
          (weaken is_unshown left i.unshown))
    where
      weaken : (g : StepOutputData → Bool) (l : List Step) → Every o g l → Every o (λ d. true) l
      weaken g [] e = tt
      weaken g (s ∷ l) e =
          (flag_mono g (λ d. true) (data_of o s.action) (λ d h. refl) e.0, weaken g l e.1)

  start_shown-InOrder :
      (o : OrderedOutputManager) (n : Str) (x : Option StepOutputData)
      → data_of o n ≡ x
      → flag (λ d. true) x ≡ true
      → InOrder steps o
      → can_show_step_start o n ≡ true
      → (o' : OrderedOutputManager) × (start_shown o n x ≡ some o') × InOrder steps o'
  unfolding start_shown
  start_shown-InOrder o n none l r h e = cc
  start_shown-InOrder o n (some d) l r h e = elim (Bool-cases d.shown) [
    | inl seen ↦ (o, simp seen, h)
    | inr fresh ↦ (
      show_active o n,
      simp fresh,
      (show_next-InOrder steps apart o n h (ap (flag is_unshown) l ∙ ground arith) e).0,
    )
  ]

  pub on_step_start-InOrder :
      (o : OrderedOutputManager) (n : Str)
      → InOrder steps o
      → (o' : OrderedOutputManager) × (on_step_start o n ≡ some o') × InOrder steps o'
  unfolding on_step_start
  on_step_start-InOrder o n h =
      let o₁ = update_data o n (λ d. record d { started = true }) in
      let h₁ = keep-InOrder o n (λ d. record d { started = true }) (λ d. (refl, refl)) h in
      elim (Bool-cases (can_show_step_start o₁ n)) [
        | inl may ↦
            let there =
              completed_before-registered o₁ _ n (registered o₁ h₁.before h₁.active h₁.left h₁.inv)
                (ap (λ (z : List Step). completed_before o₁ z n) (sym (h₁.inv.fixed ∙ h₁.inv.split))
                  ∙ sym (can_show_step_start-walk o₁ n)
                  ∙ may) in
            let (o', e, h') = start_shown-InOrder o₁ n (data_of o₁ n) refl there h₁ may in
            (o', rw may e, h')
        | inr not_yet ↦ (o₁, rw not_yet, h₁)
      ]
