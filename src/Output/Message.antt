-- ===== src/Output/Message.antt =====
-- The texts of pkg/buildfab/ordered_output.go and pkg/buildfab/simple.go: `enhanceMessage`,
-- `extractCommand`, `extractFailedDependency` and `formatExecutionTime`.
use buildfab.Base.{
  ℕ, suc, ◌/◌, ◌%◌, Str, codes, Bool, true, false, ◌&&◌, not, List, [], ◌∷◌, ◌++◌, map, Option,
  none, some, str_eq, length, drop, leb, ltb, ◌==◌, if◌then◌else◌,
}
use buildfab.Base.Strings.{str_contains, split, join, trim_space, itoa}
use buildfab.Config.{Action, Config, get_action}
use buildfab.Output.Status.{StepStatus, ok, error, skipped}

abbrev indent : Str
indent = codes "      "

abbrev newline : Str
newline = 10 ∷ []

unfoldable pub leading_spaces : Str → ℕ
leading_spaces [] = 0
leading_spaces (c ∷ cs) = let rest = leading_spaces cs in if c == 32 then suc rest else 0

-- The first loop of `extractCommand`, from its start value.
unfoldable pub min_leading_spaces : ℕ → List Str → ℕ
unfolding leading_spaces
min_leading_spaces least [] = least
min_leading_spaces least (line ∷ lines) =
    min_leading_spaces
      (if str_eq (trim_space line) []
        then least
        else if ltb (leading_spaces line) least
        then leading_spaces line
        else least)
      lines

unfoldable pub dedent : ℕ → Str → Str
dedent n line = indent ++ (if leb n (length line) then drop n line else line)

unfoldable pub align_command : Str → Str
unfolding min_leading_spaces dedent
align_command run =
    let lines = split run newline in
    let least = min_leading_spaces 999 lines in
    join (map (dedent (if least == 999 then 0 else least)) lines) newline

unfoldable pub command_of : Str → Option Action → Str
unfolding align_command
command_of name none = indent ++ name
command_of name (some action) =
    if not (str_eq action.run []) then align_command action.run else indent ++ name

unfoldable pub extract_command : Option Config → Str → Str
unfolding command_of
extract_command none name = indent ++ name
extract_command (some config) name = command_of name (get_action config name)

-- The lines of a message from the first that names the reproduction on.
unfoldable pub reproduction_lines : Bool → List Str → List Str
reproduction_lines found [] = []
reproduction_lines found (line ∷ lines) =
    let here = str_contains line (codes "to check run:") in
    let rest = reproduction_lines (if here then true else found) lines in
    if here then line ∷ rest else if found then line ∷ rest else rest

-- parts[1]
unfoldable pub second : List Str → Option Str
second [] = none
second (a ∷ []) = none
second (a ∷ b ∷ _) = some b

abbrev to_check : Str → Str
to_check command = codes "to check run:\n" ++ command

unfoldable pub enhance_exit : Option Config → Str → Str → Str
enhance_exit config name message =
    if str_contains message (codes "command failed: exit status")
    then to_check (extract_command config name)
    else message

unfoldable pub enhance_parts : Option Config → Str → Str → Option Str → Str
unfolding enhance_exit
enhance_parts config name message none = enhance_exit config name message
enhance_parts config name message (some original) =
    if str_contains original (codes "to check run:")
    then original
    else to_check (extract_command config name)

unfoldable pub enhance_wrapped : Option Config → Str → Str → Str
unfolding enhance_parts
enhance_wrapped config name message =
    if str_contains message (codes "step ") && str_contains message (codes " failed: ")
    then enhance_parts config name message (second (split message (codes " failed: ")))
    else enhance_exit config name message

unfoldable pub enhance_error : Option Config → Str → Str → Str
unfolding enhance_wrapped
enhance_error config name message =
    if str_contains message (codes "to check run:")
      && not (length (reproduction_lines false (split message newline)) == 0)
    then to_check (extract_command config name)
    else enhance_wrapped config name message

-- The manager's version of `extractFailedDependency`: whether some step failed decides, and the name
-- it returns is the one it was given.
unfoldable pub extract_failed_dependency : Bool → Str → Str
extract_failed_dependency any_error name = if any_error then name else []

unfoldable pub enhance_skipped : Str → Str → Str
enhance_skipped failed_dep message =
    if str_contains message (codes "dependency failed")
    then if not (str_eq failed_dep [])
      then codes "skipped (dependency failed: " ++ (failed_dep ++ codes ")")
      else message
    else message

unfoldable pub enhance_message : Option Config → Bool → Str → StepStatus → Str → Str
unfolding enhance_error enhance_skipped extract_failed_dependency
enhance_message config any_error name error message = enhance_error config name message
enhance_message config any_error name skipped message =
    enhance_skipped (extract_failed_dependency any_error name) message
enhance_message config any_error name _ message = message

-- Durations are nanoseconds. `millis` stands for `%.3f` of a duration in seconds.
unfoldable pub format_execution_time : (ℕ → Str) → StepStatus → ℕ → Str
format_execution_time millis ok duration =
    let total = duration / 1_000_000_000 in
    let minutes = total / 60 in
    let seconds = total % 60 in
    if ltb 0 minutes
    then codes " - in '" ++ (itoa minutes ++ (codes "m " ++ (itoa seconds ++ codes "s'")))
    else if ltb 0 seconds
    then codes " - in '" ++ (itoa seconds ++ codes "s'")
    else codes " - in '" ++ (millis duration ++ codes "s'")
format_execution_time millis _ duration = []
