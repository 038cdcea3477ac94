-- ===== src/Output/Scan.antt =====
-- Which steps the two checks of the manager let through.
use buildfab.Base.{
  Str, Bool, true, false, not, ◌&&◌, List, [], ◌∷◌, ◌++◌, Option, none, some, ◌≡◌, refl, sym, ◌∙◌,
  ap, arith, str_eq, str_eq_iff, str_eq_refl, if◌then◌else◌, Bool-cases, inl, inr, ℕ, zero, suc,
  take,
}
use mathlib.Core.Option
use buildfab.Config.{Step}
use buildfab.Output.{
  OrderedOutputManager, StepOutputData, flag, data_of, can_show_step_start, can_show_at, step_index,
  all_completed, shown_before, show_completed_from,
}
use buildfab.Output.Flags.{Every}
use buildfab.Output.Invariant.{is_printed, is_unshown}

-- A completed step that is not shown: what `checkAndShowCompletedSteps` looks for.
abbrev pub is_waiting : StepOutputData → Bool
is_waiting d = d.completed && not d.shown

pub flags_clash :
    (g h : StepOutputData → Bool) (x : Option StepOutputData)
    → ((d : StepOutputData) → g d ≡ true → h d ≡ false)
    → flag g x ≡ true
    → flag h x ≡ false
flags_clash g h none c e = refl
flags_clash g h (some d) c e = c d e

module _ (o : OrderedOutputManager) where
  pub same_flag :
      (g : StepOutputData → Bool) (a b : Str)
      → str_eq a b ≡ true
      → flag g (data_of o a) ≡ flag g (data_of o b)
  same_flag g a b e = ap (λ (m : Str). flag g (data_of o m)) ((str_eq_iff a b).0 e)

  -- Behind a step that is not completed no completed step is let through.
  shown_before-blocked :
      (before : List Step) (s : Step) (m : List Step) (t : Str)
      → Every o is_printed before
      → flag (λ d. not d.completed) (data_of o s.action) ≡ true
      → flag is_waiting (data_of o t) ≡ true
      → shown_before o (before ++ s ∷ m) t ≡ false
  unfolding shown_before
  shown_before-blocked [] s m t printed open_s waits = elim (Bool-cases (str_eq s.action t)) [
    | inl same ↦ cc (
      waits,
      same_flag is_waiting s.action t same,
      flags_clash (λ d. not d.completed) is_waiting (data_of o s.action) (λ d h. ground arith)
          open_s,
    )
    | inr other ↦ ground (
      arith,
      flags_clash (λ d. not d.completed) is_printed (data_of o s.action) (λ d h. ground arith)
          open_s,
    )
  ]
  shown_before-blocked (b ∷ before) s m t printed open_s waits =
      elim (Bool-cases (str_eq b.action t)) [
        | inl same ↦ cc (
          waits,
          same_flag is_waiting b.action t same,
          flags_clash is_printed is_waiting (data_of o b.action) (λ d h. ground arith) printed.0,
        )
        | inr other ↦
            ground (arith, shown_before-blocked before s m t printed.1 open_s waits, printed.0)
      ]

  pub shown_before-ready :
      (before : List Step) (s : Step) (m : List Step)
      → Every o is_printed before
      → shown_before o (before ++ s ∷ m) s.action ≡ true
  unfolding shown_before
  shown_before-ready [] s m printed = ground (arith, str_eq_refl s.action)
  shown_before-ready (b ∷ before) s m printed =
      ground (arith, shown_before-ready before s m printed.1, printed.0)

  -- The loop of `checkAndShowCompletedSteps` passes over what is printed.
  pub show_completed_from-printed :
      (before m : List Step)
      → Every o is_printed before
      → show_completed_from o (before ++ m) ≡ show_completed_from o m
  unfolding show_completed_from
  show_completed_from-printed [] m printed = refl
  show_completed_from-printed (b ∷ before) m printed =
      rw
        (
          flags_clash is_printed is_waiting (data_of o b.action) (λ d h. ground arith) printed.0,
          show_completed_from,
        )
        (show_completed_from-printed before m printed.1)

  -- Where the first step that is not printed is not completed it does nothing.
  pub show_completed_from-settled :
      (before : List Step) (s : Step) (m l : List Step)
      → o.steps ≡ before ++ s ∷ m
      → Every o is_printed before
      → flag (λ d. not d.completed) (data_of o s.action) ≡ true
      → show_completed_from o l ≡ o
  unfolding show_completed_from
  show_completed_from-settled before s m [] split printed open_s = refl
  show_completed_from-settled before s m (t ∷ l) split printed open_s =
      elim (Bool-cases (flag is_waiting (data_of o t.action))) [
        | inl waits ↦
            let blocked =
              ap (λ (z : List Step). shown_before o z t.action) split
              ∙ shown_before-blocked before s m t.action printed open_s waits in
            simp (waits, blocked) (show_completed_from-settled before s m l split printed open_s)
        | inr idle ↦ simp idle (show_completed_from-settled before s m l split printed open_s)
      ]

  -- `canShowStepStart` in one walk.
  pub completed_before : List Step → Str → Bool
  completed_before [] n = false
  completed_before (s ∷ ss) n =
      let rest = flag (λ d. d.completed) (data_of o s.action) && completed_before ss n in
      if str_eq s.action n then true else rest

  upto : List Step → Option ℕ → Bool
  upto l none = false
  upto l (some i) = all_completed o (take i l)

  upto-map-suc :
      (s : Step) (ss : List Step) (x : Option ℕ)
      → upto (s ∷ ss) (Option.map suc x)
        ≡ (flag (λ d. d.completed) (data_of o s.action) && upto ss x)
  unfolding upto all_completed
  upto-map-suc s ss none = ground arith
  upto-map-suc s ss (some i) = refl

  upto-step_index : (l : List Step) (n : Str) → upto l (step_index l n) ≡ completed_before l n
  unfolding step_index completed_before
  upto-step_index [] n = unfold upto in refl
  upto-step_index (s ∷ ss) n = elim (Bool-cases (str_eq s.action n)) [
    | inl same ↦ rw same (unfold upto all_completed in refl)
    | inr other ↦ rw other (
        upto-map-suc s ss (step_index ss n)
        ∙ ap (◌&&◌ (flag (λ d. d.completed) (data_of o s.action))) (upto-step_index ss n))
  ]

  can_show_at-upto : (x : Option ℕ) → can_show_at o x ≡ upto o.steps x
  unfolding can_show_at upto
  can_show_at-upto none = refl
  can_show_at-upto (some zero) = refl
  can_show_at-upto (some (suc i)) = refl

  pub can_show_step_start-walk : (n : Str) → can_show_step_start o n ≡ completed_before o.steps n
  unfolding can_show_step_start
  can_show_step_start-walk n = can_show_at-upto (step_index o.steps n) ∙ upto-step_index o.steps n

  pub completed_before-registered :
      (l : List Step) (n : Str)
      → Every o (λ d. true) l
      → completed_before l n ≡ true
      → flag (λ d. true) (data_of o n) ≡ true
  unfolding completed_before
  completed_before-registered [] n h e = cc
  completed_before-registered (s ∷ ss) n h e = elim (Bool-cases (str_eq s.action n)) [
    | inl same ↦ sym (same_flag (λ d. true) s.action n same) ∙ h.0
    | inr other ↦ completed_before-registered ss n h.1 (ground arith)
  ]

  -- A step that may start, and is not shown, is the first that is not printed.
  pub completed_before-first :
      (before : List Step) (s : Step) (m : List Step) (n : Str)
      → Every o is_printed before
      → flag (λ d. not d.completed) (data_of o s.action) ≡ true
      → flag is_unshown (data_of o n) ≡ true
      → completed_before (before ++ s ∷ m) n ≡ true
      → s.action ≡ n
  unfolding completed_before
  completed_before-first [] s m n printed open_s fresh e = elim (Bool-cases (str_eq s.action n)) [
    | inl same ↦ (str_eq_iff s.action n).0 same
    | inr other ↦ cc (
      flags_clash (λ d. not d.completed) (λ d. d.completed) (data_of o s.action)
          (λ d h. ground arith) open_s,
      rw other at e,
    )
  ]
  completed_before-first (b ∷ before) s m n printed open_s fresh e =
      elim (Bool-cases (str_eq b.action n)) [
        | inl same ↦ cc (
          fresh,
          same_flag is_unshown b.action n same,
          flags_clash is_printed is_unshown (data_of o b.action) (λ d h. ground arith) printed.0,
        )
        | inr other ↦ completed_before-first before s m n printed.1 open_s fresh (ground arith)
      ]

  -- Where all steps are printed, none that is not shown may start.
  pub completed_before-none :
      (before : List Step) (n : Str)
      → Every o is_printed before
      → flag is_unshown (data_of o n) ≡ true
      → completed_before (before ++ []) n ≡ false
  unfolding completed_before
  completed_before-none [] n printed fresh = refl
  completed_before-none (b ∷ before) n printed fresh = elim (Bool-cases (str_eq b.action n)) [
    | inl same ↦ cc (
      fresh,
      same_flag is_unshown b.action n same,
      flags_clash is_printed is_unshown (data_of o b.action) (λ d h. ground arith) printed.0,
    )
    | inr other ↦ ground (arith, completed_before-none before n printed.1 fresh)
  ]
