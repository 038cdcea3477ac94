-- ===== src/Output.antt =====
-- pkg/buildfab/ordered_output.go: the manager that prints what concurrent steps report in the order
-- in which the steps are declared. Each method holds the manager's mutex from its first line to its
-- last, so a run is a sequence of whole calls. What a method prints is appended to `log`, one
-- event for each line of text; the prints under `debug` are left out. `current_step` is the empty
-- name when no step is active.
pub mod Status
pub mod Message
pub mod Flags
pub mod Protocol
pub mod Invariant
pub mod Turns
pub mod Scan
pub mod Order
pub mod Calls
pub mod Transcript
use buildfab.Base.{
  ℕ, zero, suc, Str, Bool, true, false, not, ◌&&◌, ◌||◌, List, [], ◌∷◌, ◌++◌, Option, none, some,
  str_eq, take, if◌then◌else◌,
}
use mathlib.Core.Option
use buildfab.Base.Dict
use buildfab.Base.Dict.{Dict}
use buildfab.Config.{Step, Config}
use buildfab.Output.Status.{StepStatus, pending, error, status_eq}
use buildfab.Output.Message.{enhance_message}

pub record StepOutputData : Type 0 where
  pub started : Bool
  pub completed : Bool
  pub shown : Bool
  pub status : StepStatus
  pub message : Str
  pub duration : ℕ
  pub output : List Str
  pub error : Option Str

-- The lines that the manager writes: that a step starts, a line of its output, and its result with
-- its message and duration (`format_execution_time` renders the latter behind the message).
pub data Event : Type 0 where
  start : Str → Event
  line : Str → Event
  result : Str → StepStatus → Str → ℕ → Event

pub record OrderedOutputManager : Type 0 where
  pub steps : List Step
  pub step_data : Dict StepOutputData
  pub current_step : Str
  pub verbose : Bool
  pub config : Option Config
  pub log : List Event

abbrev pub new_data : StepOutputData
new_data = record {
  started = false;
  completed = false;
  shown = false;
  status = pending;
  message = [];
  duration = 0;
  output = [];
  error = none;
}

abbrev pub new_manager : List Step → Bool → Option Config → OrderedOutputManager
new_manager steps verbose config = record {
  steps = steps;
  step_data = [];
  current_step = [];
  verbose = verbose;
  config = config;
  log = [];
}

-- A field of a step's data, false where the step is not registered.
abbrev pub flag : (StepOutputData → Bool) → Option StepOutputData → Bool
flag f none = false
flag f (some d) = f d

unfoldable pub any_error : Dict StepOutputData → Bool
any_error [] = false
any_error ((_, d) ∷ rest) = status_eq d.status error || any_error rest

-- The index of the first step with that action.
unfoldable pub step_index : List Step → Str → Option ℕ
step_index [] name = none
step_index (s ∷ ss) name =
    let rest = Option.map suc (step_index ss name) in if str_eq s.action name then some 0 else rest

module _ (o : OrderedOutputManager) where
  abbrev pub data_of : Str → Option StepOutputData
  data_of name = Dict.lookup name o.step_data

  abbrev pub print : Event → OrderedOutputManager
  print e = record o { log = o.log ++ e ∷ [] }

  abbrev pub activate : Str → OrderedOutputManager
  activate name = record o { current_step = name }

  -- `if data, exists := o.stepData[stepName]; exists { ... }` for writes through the pointer.
  unfoldable pub write :
      Str → Option StepOutputData → (StepOutputData → StepOutputData) → OrderedOutputManager
  write name none f = o
  write name (some d) f = record o { step_data = Dict.insert name (f d) o.step_data }

  abbrev pub update_data : Str → (StepOutputData → StepOutputData) → OrderedOutputManager
  update_data name f = write name (data_of name) f

  unfoldable pub register_step : Str → OrderedOutputManager
  register_step name = record o { step_data = Dict.insert name new_data o.step_data }

  unfoldable pub show_step_start : Str → OrderedOutputManager
  show_step_start name = print (start name)

  unfoldable pub show_step_output : Str → OrderedOutputManager
  show_step_output output = if o.verbose then print (line output) else o

  unfoldable pub show_step_result : Str → StepStatus → Str → ℕ → OrderedOutputManager
  show_step_result name status message duration = print (
      result name status (enhance_message o.config (any_error o.step_data) name status message)
        duration)

  unfoldable pub show_step_completion : Str → Option StepOutputData → OrderedOutputManager
  unfolding show_step_result
  show_step_completion name none = o
  show_step_completion name (some d) = show_step_result name d.status d.message d.duration

  unfoldable pub all_completed : List Step → Bool
  all_completed [] = true
  all_completed (s ∷ ss) = flag (λ d. d.completed) (data_of s.action) && all_completed ss

  unfoldable pub can_show_at : Option ℕ → Bool
  unfolding all_completed
  can_show_at none = false
  can_show_at (some zero) = true
  can_show_at (some (suc i)) = all_completed (take (suc i) o.steps)

  unfoldable pub can_show_step_start : Str → Bool
  unfolding can_show_at step_index
  can_show_step_start name = can_show_at (step_index o.steps name)

  -- The inner loop of `checkAndShowCompletedSteps`.
  unfoldable pub shown_before : List Step → Str → Bool
  shown_before [] name = true
  shown_before (s ∷ ss) name =
      let rest = flag (λ d. d.completed && d.shown) (data_of s.action) && shown_before ss name in
      if str_eq s.action name then true else rest

-- The loop of `flushBufferedOutput`.
unfoldable pub show_lines : OrderedOutputManager → List Str → OrderedOutputManager
unfolding show_step_output
show_lines o [] = o
show_lines o (output ∷ rest) = show_lines (show_step_output o output) rest

unfoldable pub flush : OrderedOutputManager → Str → Option StepOutputData → OrderedOutputManager
unfolding show_lines write
flush o name none = o
flush o name (some d) =
    let o' = show_lines o d.output in update_data o' name (λ e. record e { output = [] })

abbrev pub flush_buffered_output : OrderedOutputManager → Str → OrderedOutputManager
flush_buffered_output o name = flush o name (data_of o name)

-- What both checks do to a step that they show.
abbrev pub show_active : OrderedOutputManager → Str → OrderedOutputManager
show_active o name =
    activate (update_data (show_step_start o name) name (λ d. record d { shown = true })) name

unfoldable pub show_completed_step : OrderedOutputManager → Str → OrderedOutputManager
unfolding show_step_start write flush show_step_completion
show_completed_step o name =
    let o' = flush_buffered_output (show_active o name) name in
    activate (show_step_completion o' name (data_of o' name)) []

-- The loop of `checkAndShowCompletedSteps` over the steps that are left of it.
unfoldable pub show_completed_from : OrderedOutputManager → List Step → OrderedOutputManager
unfolding show_completed_step
show_completed_from o [] = o
show_completed_from o (s ∷ ss) =
    show_completed_from
      (if flag (λ d. d.completed && not d.shown) (data_of o s.action)
          && shown_before o o.steps s.action
        then show_completed_step o s.action
        else o)
      ss

abbrev pub check_and_show_completed_steps : OrderedOutputManager → OrderedOutputManager
check_and_show_completed_steps o = show_completed_from o o.steps

unfoldable pub show_next_from : OrderedOutputManager → List Step → OrderedOutputManager
unfolding show_step_start write flush
show_next_from o [] = o
show_next_from o (s ∷ ss) =
    elim (flag (λ d. d.started && not d.completed && not d.shown) (data_of o s.action)
      && can_show_step_start o s.action) [
        | true ↦ flush_buffered_output (show_active o s.action) s.action
        | false ↦ show_next_from o ss
      ]

abbrev pub check_and_show_next_step : OrderedOutputManager → OrderedOutputManager
check_and_show_next_step o = show_next_from o o.steps

-- `none` is the nil dereference of `o.stepData[stepName].Shown`.
unfoldable pub start_shown :
    OrderedOutputManager → Str → Option StepOutputData → Option OrderedOutputManager
unfolding show_step_start write
start_shown o name none = none
start_shown o name (some d) = if not d.shown then some (show_active o name) else some o

unfoldable pub on_step_start : OrderedOutputManager → Str → Option OrderedOutputManager
unfolding write start_shown
on_step_start o name =
    let o' = update_data o name (λ d. record d { started = true }) in
    if can_show_step_start o' name then start_shown o' name (data_of o' name) else some o'

unfoldable pub on_step_complete :
    OrderedOutputManager → Str → StepStatus → Str → ℕ → OrderedOutputManager
unfolding write show_step_completion show_completed_from show_next_from
on_step_complete o name status message duration =
    let o₁ = update_data o name (λ d. record d {
      completed = true;
      status = status;
      message = message;
      duration = duration;
    }) in
    let o₂ =
      if str_eq o₁.current_step name
      then activate (show_step_completion o₁ name (data_of o₁ name)) []
      else o₁ in
    check_and_show_next_step (check_and_show_completed_steps o₂)

unfoldable pub on_step_output : OrderedOutputManager → Str → Str → OrderedOutputManager
unfolding write show_step_output
on_step_output o name output =
    let o' = update_data o name (λ d. record d { output = d.output ++ output ∷ [] }) in
    if str_eq o'.current_step name then show_step_output o' output else o'

unfoldable pub on_step_error : OrderedOutputManager → Str → Str → OrderedOutputManager
unfolding write
on_step_error o name err = update_data o name (λ d. record d { error = some err })

-- `NewOrderedStepCallback`: every step is registered.
unfoldable pub register_all : OrderedOutputManager → List Step → OrderedOutputManager
unfolding register_step
register_all o [] = o
register_all o (s ∷ ss) = register_all (register_step o s.action) ss
