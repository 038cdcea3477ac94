-- ===== src/Output/Order.antt =====
-- Between two calls the manager is in order, whatever the calls are.
use buildfab.Base.{
  Str, true, false, not, ◌&&◌, List, [], ◌∷◌, ◌++◌, Option, none, some, ◌≡◌, refl, sym, ◌∙◌, ap,
  arith, Bool-cases, subst, inl, inr,
}
use buildfab.Config.{Step}
use buildfab.Output.{
  OrderedOutputManager, StepOutputData, flag, data_of, can_show_step_start, shown_before,
  show_completed_from, show_completed_step, show_next_from, show_active, flush,
  check_and_show_completed_steps,
}
use buildfab.Output.Flags.{IsDistinct}
use buildfab.Output.Invariant.{is_shown, is_unshown, opt, Inv, InOrder, IsSettled}
use buildfab.Output.Turns.{
  flag_mono, flush-keep, show_active-keep, flush-Inv, show_active-Inv, show_completed_step-Inv,
}
use buildfab.Output.Scan.{
  is_waiting, flags_clash, shown_before-ready, show_completed_from-printed,
  show_completed_from-settled, can_show_step_start-walk, completed_before, completed_before-first,
  completed_before-none,
}

module _ (steps : List Step) (apart : IsDistinct steps) where
  -- The loop of `checkAndShowCompletedSteps` from the first step that is not printed on.
  show_completed_from-InOrder :
      (left before : List Step) (o : OrderedOutputManager)
      → Inv steps o before none left
      → InOrder steps (show_completed_from o left)
  unfolding show_completed_from
  show_completed_from-InOrder [] before o i = record {
    before = before;
    active = none;
    left = [];
    inv = i;
    settled = tt;
  }
  show_completed_from-InOrder (s ∷ left) before o i =
      elim (Bool-cases (flag is_waiting (data_of o s.action))) [
        | inl waits ↦
            let ready =
              ap (λ (z : List Step). shown_before o z s.action) (i.fixed ∙ i.split)
              ∙ shown_before-ready o before s left i.printed in
            simp (waits, ready)
              (show_completed_from-InOrder left (before ++ s ∷ []) (show_completed_step o s.action)
                (show_completed_step-Inv steps before s left o apart
                  (flag_mono is_waiting (λ d. d.completed) (data_of o s.action)
                    (λ d h. ground arith) waits)
                  i))
        | inr idle ↦
            let open_s = open_of (data_of o s.action) idle i.unshown.0 in
            rw
              (show_completed_from-settled o before s left (s ∷ left) (i.fixed ∙ i.split) i.printed
                open_s)
              (record {
                before = before;
                active = none;
                left = s ∷ left;
                inv = i;
                settled = open_s;
              })
      ]
    where
      open_of :
          (x : Option StepOutputData)
          → flag is_waiting x ≡ false
          → flag is_unshown x ≡ true
          → flag (λ d. not d.completed) x ≡ true
      open_of none e h = h
      open_of (some d) e h = ground arith

  pub check_completed-InOrder :
      (before left : List Step) (o : OrderedOutputManager)
      → Inv steps o before none left
      → InOrder steps (check_and_show_completed_steps o)
  check_completed-InOrder before left o i =
      subst (InOrder steps)
        (sym (
          ap (show_completed_from o) (i.fixed ∙ i.split)
          ∙ show_completed_from-printed o before left i.printed))
        (show_completed_from-InOrder left before o i)

  -- While a step that is not completed is being printed the check does nothing.
  pub check_completed-busy :
      (o : OrderedOutputManager) (before : List Step) (s : Step) (left : List Step)
      → Inv steps o before (some s) left
      → flag (λ d. not d.completed) (data_of o s.action) ≡ true
      → InOrder steps (check_and_show_completed_steps o)
  check_completed-busy o before s left i open_s =
      rw (show_completed_from-settled o before s left o.steps (i.fixed ∙ i.split) i.printed open_s)
        (record { before = before; active = some s; left = left; inv = i; settled = open_s })

  -- Of the steps that are not shown only the next in the order may show its start.
  can_show-next :
      (o : OrderedOutputManager) (n : Str) (before : List Step) (active : Option Step)
      (left : List Step)
      → Inv steps o before active left
      → IsSettled o (opt active ++ left)
      → flag is_unshown (data_of o n) ≡ true
      → can_show_step_start o n ≡ true
      → (s : Step) × (rest : List Step) × (s.action ≡ n) × (active ≡ none) × (left ≡ s ∷ rest)
  can_show-next o n before (some s) left i open_s fresh e =
      let walk =
        sym (ap (λ (z : List Step). completed_before o z n) (i.fixed ∙ i.split))
        ∙ sym (can_show_step_start-walk o n)
        ∙ e in
      let same = completed_before-first o before s left n i.printed open_s fresh walk in
      cc (
        fresh,
        flags_clash is_shown is_unshown (data_of o s.action) (λ d h. ground arith) i.running.0,
        ap (λ (m : Str). flag is_unshown (data_of o m)) same,
      )
  can_show-next o n before none [] i open_s fresh e =
      let walk =
        sym (ap (λ (z : List Step). completed_before o z n) (i.fixed ∙ i.split))
        ∙ sym (can_show_step_start-walk o n)
        ∙ e in
      cc (walk, completed_before-none o before n i.printed fresh)
  can_show-next o n before none (s ∷ rest) i open_s fresh e =
      let walk =
        sym (ap (λ (z : List Step). completed_before o z n) (i.fixed ∙ i.split))
        ∙ sym (can_show_step_start-walk o n)
        ∙ e in
      (s, rest, completed_before-first o before s rest n i.printed open_s fresh walk, refl, refl)

  -- Showing the start of the next step, which is not completed.
  pub show_next-InOrder :
      (o : OrderedOutputManager) (n : Str) (h : InOrder steps o)
      → flag is_unshown (data_of o n) ≡ true
      → can_show_step_start o n ≡ true
      → InOrder steps (show_active o n)
        × InOrder steps (flush (show_active o n) n (data_of (show_active o n) n))
  show_next-InOrder o n h fresh e =
      let (s, rest, same, idle, next) =
        can_show-next o n h.before h.active h.left h.inv h.settled fresh e in
      subst
        (λ (m : Str).
          InOrder steps (show_active o m)
          × InOrder steps (flush (show_active o m) m (data_of (show_active o m) m)))
        same
        (shown s rest
          (subst (λ (l : List Step). Inv steps o h.before none l) next
            (subst (λ (a : Option Step). Inv steps o h.before a h.left) idle h.inv))
          (subst (λ (l : List Step). IsSettled o l) next
            (subst (λ (a : Option Step). IsSettled o (opt a ++ h.left)) idle h.settled)))
    where
      shown :
          (s : Step) (rest : List Step)
          → Inv steps o h.before none (s ∷ rest)
          → flag (λ d. not d.completed) (data_of o s.action) ≡ true
          → InOrder steps (show_active o s.action)
            × InOrder steps (
                flush (show_active o s.action) s.action (data_of (show_active o s.action) s.action))
      shown s rest i open_s =
          let started = show_active-Inv steps h.before s rest o apart i in
          let still =
            show_active-keep o s.action s.action (λ d. not d.completed) (λ d k. k) open_s in
          (
            record {
              before = h.before;
              active = some s;
              left = rest;
              inv = started;
              settled = still;
            },
            record {
              before = h.before;
              active = some s;
              left = rest;
              inv = flush-Inv steps h.before s rest (show_active o s.action) _ started;
              settled =
                  flush-keep (show_active o s.action) s.action s.action _ (λ d. not d.completed)
                    (λ d k. k) still;
            },
          )

  pub show_next_from-InOrder :
      (l : List Step) (o : OrderedOutputManager)
      → InOrder steps o
      → InOrder steps (show_next_from o l)
  unfolding show_next_from
  show_next_from-InOrder [] o h = h
  show_next_from-InOrder (t ∷ l) o h =
      let test =
        flag (λ d. d.started && not d.completed && not d.shown) (data_of o t.action)
        && can_show_step_start o t.action in
      elim (Bool-cases test) [
        | inl go ↦
            rw (go, show_next_from)
              ((show_next-InOrder o t.action h
                (flag_mono (λ d. d.started && not d.completed && not d.shown) is_unshown
                  (data_of o t.action) (λ d k. ground arith) (ground arith))
                (ground arith)).1)
        | inr on ↦ rw (on, show_next_from) (show_next_from-InOrder l o h)
      ]
