-- ===== src/Simple/Callback.antt =====
-- `SimpleStepCallback` of pkg/buildfab/simple.go. It prints a step's result once, and keeps the last
-- result of each step in the place of its first.
use buildfab.Base.{
  ℕ, Str, Bool, true, false, not, ◌&&◌, List, [], ◌∷◌, ◌++◌, map, Option, str_eq, contains, ◌==◌,
  if◌then◌else◌,
}
use mathlib.Core.List.{reverse}
use buildfab.Base.Strings.{split}
use buildfab.Config.{Config}
use buildfab.Output.{Event, start, line, result}
use buildfab.Output.Status.{StepStatus, error, skipped, status_eq}
use buildfab.Output.Message.{enhance_error, enhance_skipped}
use buildfab.Output.Calls.{Call, step_start, step_complete, step_output, step_error}
use buildfab.Simple.{StepResult}

-- `displayed` holds the names that are set in the map.
pub record SimpleStepCallback : Type 0 where
  pub verbose : Bool
  pub results : List StepResult
  pub displayed : List Str
  pub config : Option Config
  pub log : List Event

-- `extractFailedDependency`: the first step with an error.
unfoldable pub first_failed : List StepResult → Str
first_failed [] = []
first_failed (r ∷ rs) =
    let rest = first_failed rs in if status_eq r.status error then r.step_name else rest

unfoldable pub simple_message : Option Config → List StepResult → Str → StepStatus → Str → Str
unfolding first_failed
simple_message config results name error message = enhance_error config name message
simple_message config results name skipped message = enhance_skipped (first_failed results) message
simple_message config results name _ message = message

-- The loop that collects a result.
unfoldable pub put_result : StepResult → List StepResult → List StepResult
put_result r [] = r ∷ []
put_result r (x ∷ xs) =
    let rest = put_result r xs in if str_eq x.step_name r.step_name then r ∷ xs else x ∷ rest

-- strings.TrimRight(s, "\n")
unfoldable pub trim_newlines : Str → Str
trim_newlines [] = []
trim_newlines (c ∷ cs) = elim (c == 10) [ true ↦ trim_newlines cs | false ↦ c ∷ cs ]

abbrev pub output_lines : Str → List Str
output_lines output = split (reverse (trim_newlines (reverse output))) (10 ∷ [])

unfoldable pub show_result : SimpleStepCallback → Str → StepStatus → Str → ℕ → SimpleStepCallback
unfolding simple_message
show_result c name status message duration = if contains c.displayed name then c else record c {
  displayed = name ∷ c.displayed;
  log =
      c.log
      ++ result name status (simple_message c.config c.results name status message) duration ∷ [];
}

unfoldable pub simple_call : SimpleStepCallback → Call → SimpleStepCallback
unfolding show_result put_result trim_newlines
simple_call c (step_start name) = record c { log = c.log ++ start name ∷ [] }
simple_call c (step_complete name status message duration) =
    let c' = show_result c name status message duration in
    record c' {
      results =
          put_result (record { step_name = name; status = status; duration = duration }) c'.results;
    }
simple_call c (step_output name output) =
    if c.verbose && not (str_eq output [])
    then record c { log = c.log ++ map line (output_lines output) }
    else c
simple_call c (step_error name err) = c

unfoldable pub simple_calls : SimpleStepCallback → List Call → SimpleStepCallback
unfolding simple_call
simple_calls c [] = c
simple_calls c (x ∷ xs) = simple_calls (simple_call c x) xs

abbrev pub new_simple_callback : Bool → Option Config → SimpleStepCallback
new_simple_callback verbose config = record {
  verbose = verbose;
  results = [];
  displayed = [];
  config = config;
  log = [];
}
