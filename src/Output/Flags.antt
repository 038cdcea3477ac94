-- ===== src/Output/Flags.antt =====
-- How the writes of the manager change the flags of its steps.
use buildfab.Base.{
  Str, Bool, true, false, List, [], ◌∷◌, ◌++◌, Option, none, some, ◌≡◌, refl, sym, ◌∙◌, ap, str_eq,
  str_eq_iff, str_eq_refl, if◌then◌else◌, All, Bool-cases, inl, inr,
}
use buildfab.Base.Dict
use buildfab.Base.Dict.{lookup-insert}
use buildfab.Config.{Step}
use buildfab.Output.{OrderedOutputManager, StepOutputData, flag, data_of, write, update_data}

abbrev pub map_data :
    (StepOutputData → StepOutputData) → Option StepOutputData → Option StepOutputData
map_data f none = none
map_data f (some d) = some (f d)

write-lookup :
    (o : OrderedOutputManager) (n k : Str) (x : Option StepOutputData)
    (f : StepOutputData → StepOutputData)
    → Dict.lookup n o.step_data ≡ x
    → data_of (write o n x f) k ≡ (if str_eq n k then map_data f x else data_of o k)
unfolding write
write-lookup o n k none f e = elim (Bool-cases (str_eq n k)) [
  | inl same ↦ rw same (rw (← (str_eq_iff n k).0 same) e)
  | inr other ↦ rw other
]
write-lookup o n k (some d) f e = lookup-insert n k (f d) o.step_data

pub update_data-lookup :
    (o : OrderedOutputManager) (n k : Str) (f : StepOutputData → StepOutputData)
    → data_of (update_data o n f) k ≡ (if str_eq n k then map_data f (data_of o n) else data_of o k)
update_data-lookup o n k f = write-lookup o n k (data_of o n) f refl

-- A write to a step's data leaves the manager's other fields alone.
pub record Same (o o' : OrderedOutputManager) : Type 0 where
  pub steps : o'.steps ≡ o.steps
  pub current : o'.current_step ≡ o.current_step
  pub log : o'.log ≡ o.log

write-Same :
    (o : OrderedOutputManager) (n : Str) (x : Option StepOutputData)
    (f : StepOutputData → StepOutputData)
    → Same o (write o n x f)
unfolding write
write-Same o n none f = record { steps = refl; current = refl; log = refl }
write-Same o n (some d) f = record { steps = refl; current = refl; log = refl }

pub update_data-Same :
    (o : OrderedOutputManager) (n : Str) (f : StepOutputData → StepOutputData)
    → Same o (update_data o n f)
update_data-Same o n f = write-Same o n (data_of o n) f

-- A test holds of the data of every listed step, all of them registered.
abbrev pub Every : OrderedOutputManager → (StepOutputData → Bool) → List Step → Type 0
Every o g l = All (λ s. flag g (data_of o s.action) ≡ true) l

abbrev pub Absent : Str → List Step → Type 0
Absent n l = All (λ s. str_eq n s.action ≡ false) l

-- No two steps have one action.
abbrev pub IsDistinct : List Step → Type 0
IsDistinct [] = Unit
IsDistinct (s ∷ ss) = Absent s.action ss × IsDistinct ss

module _ (o : OrderedOutputManager) (n : Str) (f : StepOutputData → StepOutputData)
    (g : StepOutputData → Bool) where
  pub flag_keep :
      (k : Str)
      → ((d : StepOutputData) → g d ≡ true → g (f d) ≡ true)
      → flag g (data_of o k) ≡ true
      → flag g (data_of (update_data o n f) k) ≡ true
  flag_keep k keep h = rw (update_data-lookup o n k f) (go (str_eq n k) refl (data_of o n) refl)
    where
      go :
          (b : Bool)
          → str_eq n k ≡ b
          → (x : Option StepOutputData) → data_of o n ≡ x
          → flag g (if b then map_data f x else data_of o k) ≡ true
      go false e x l = h
      go true e (some d) l =
          keep d (
            ap (flag g) (sym l) ∙ ap (λ (m : Str). flag g (data_of o m)) ((str_eq_iff n k).0 e) ∙ h)
      go true e none l =
          ap (flag g) (sym l) ∙ ap (λ (m : Str). flag g (data_of o m)) ((str_eq_iff n k).0 e) ∙ h

  pub flag_other :
      (k : Str) → str_eq n k ≡ false → flag g (data_of (update_data o n f) k) ≡ flag g (data_of o k)
  flag_other k e = rw (update_data-lookup o n k f, e)

  pub flag_self : flag g (data_of (update_data o n f) n) ≡ flag (λ d. g (f d)) (data_of o n)
  flag_self = rw (update_data-lookup o n n f, str_eq_refl n) (go (data_of o n))
    where
      go : (x : Option StepOutputData) → flag g (map_data f x) ≡ flag (λ d. g (f d)) x
      go none = refl
      go (some d) = refl

  pub Every-keep :
      (l : List Step)
      → ((d : StepOutputData) → g d ≡ true → g (f d) ≡ true)
      → Every o g l
      → Every (update_data o n f) g l
  Every-keep [] keep h = tt
  Every-keep (s ∷ ss) keep h = (flag_keep s.action keep h.0, Every-keep ss keep h.1)

  pub Every-Absent : (l : List Step) → Absent n l → Every o g l → Every (update_data o n f) g l
  Every-Absent [] off h = tt
  Every-Absent (s ∷ ss) off h = (flag_other s.action off.0 ∙ h.0, Every-Absent ss off.1 h.1)

pub Every-append :
    (o : OrderedOutputManager) (g : StepOutputData → Bool) (xs ys : List Step)
    → Every o g xs
    → Every o g ys
    → Every o g (xs ++ ys)
Every-append o g [] ys h k = k
Every-append o g (x ∷ xs) ys h k = (h.0, Every-append o g xs ys h.1 k)
