-- ===== src/Output/Invariant.antt =====
-- The invariant of the manager: the steps split into those that are printed, the one that is being
-- printed, if any, and those whose turn is to come; and the log reads as just that.
use buildfab.Base.{
  Str, Bool, true, not, ◌&&◌, List, [], ◌∷◌, ◌++◌, map, Option, none, some, ◌≡◌, ◌∙◌, ap, arith,
}
use buildfab.Config.{Step}
use buildfab.Output.{OrderedOutputManager, StepOutputData, flag, data_of, update_data}
use buildfab.Output.Flags.{update_data-Same, Every, Every-keep}
use buildfab.Output.Protocol.{progress, reads}

abbrev pub is_printed : StepOutputData → Bool
is_printed d = d.completed && d.shown

abbrev pub is_shown : StepOutputData → Bool
is_shown d = d.shown

abbrev pub is_unshown : StepOutputData → Bool
is_unshown d = not d.shown

abbrev pub names : List Step → List Str
names l = map (λ s. s.action) l

abbrev pub opt : Option Step → List Step
opt none = []
opt (some s) = s ∷ []

abbrev pub opt_name : Option Step → Option Str
opt_name none = none
opt_name (some s) = some s.action

abbrev pub current_name : Option Step → Str
current_name none = []
current_name (some s) = s.action

pub record Inv (steps : List Step) (o : OrderedOutputManager) (before : List Step)
    (active : Option Step) (left : List Step) : Type 0 where
  pub fixed : o.steps ≡ steps
  pub split : steps ≡ before ++ (opt active ++ left)
  pub printed : Every o is_printed before
  pub current : o.current_step ≡ current_name active
  pub running : Every o is_shown (opt active)
  pub unshown : Every o is_unshown left
  pub log : reads (names steps) o.log ≡ some (progress (opt_name active) (names left))

-- The first step that is not printed is not complete, so nothing waits to be printed.
abbrev pub IsSettled : OrderedOutputManager → List Step → Type 0
IsSettled o [] = Unit
IsSettled o (s ∷ _) = flag (λ d. not d.completed) (data_of o s.action) ≡ true

-- The state between two calls: the invariant, with nothing held back.
pub record InOrder (steps : List Step) (o : OrderedOutputManager) : Type 0 where
  pub before : List Step
  pub active : Option Step
  pub left : List Step
  pub inv : Inv steps o before active left
  pub settled : IsSettled o (opt active ++ left)

module _ {steps : List Step} {o : OrderedOutputManager} {before : List Step} {active : Option Step}
    {left : List Step} where
  -- A write that keeps the three tests keeps the invariant.
  pub Inv-keep :
      (n : Str) (f : StepOutputData → StepOutputData)
      → ((d : StepOutputData) → ((f d).shown ≡ d.shown) × ((f d).completed ≡ d.completed))
      → Inv steps o before active left
      → Inv steps (update_data o n f) before active left
  Inv-keep n f keep i =
      let same = update_data-Same o n f in
      record {
        fixed = same.steps ∙ i.fixed;
        split = i.split;
        printed = Every-keep o n f is_printed before (λ d h. ground (arith, keep d)) i.printed;
        current = same.current ∙ i.current;
        running = Every-keep o n f is_shown (opt active) (λ d h. ground (arith, keep d)) i.running;
        unshown = Every-keep o n f is_unshown left (λ d h. ground (arith, keep d)) i.unshown;
        log = ap (reads (names steps)) same.log ∙ i.log;
      }

  -- So does one that completes a step.
  pub Inv-complete :
      (n : Str) (f : StepOutputData → StepOutputData)
      → ((d : StepOutputData) → ((f d).shown ≡ d.shown) × ((f d).completed ≡ true))
      → Inv steps o before active left
      → Inv steps (update_data o n f) before active left
  Inv-complete n f keep i =
      let same = update_data-Same o n f in
      record {
        fixed = same.steps ∙ i.fixed;
        split = i.split;
        printed = Every-keep o n f is_printed before (λ d h. ground (arith, keep d)) i.printed;
        current = same.current ∙ i.current;
        running = Every-keep o n f is_shown (opt active) (λ d h. ground (arith, keep d)) i.running;
        unshown = Every-keep o n f is_unshown left (λ d h. ground (arith, keep d)) i.unshown;
        log = ap (reads (names steps)) same.log ∙ i.log;
      }
