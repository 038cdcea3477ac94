-- ===== src/Output/Status.antt =====
-- `StepStatus` of pkg/buildfab/types.go and `Status` of pkg/buildfab/buildfab.go. Their six values are
-- the constants declared there; the default arm of `String` is for integers that are none of them.
use buildfab.Base.{Str, codes, Bool, true, false}

pub data StepStatus : Type 0 where
  pending running ok warn error skipped : StepStatus

unfoldable pub string : StepStatus → Str
string pending = codes "pending"
string running = codes "running"
string ok = codes "ok"
string warn = codes "warn"
string error = codes "error"
string skipped = codes "skipped"

unfoldable pub status_eq : StepStatus → StepStatus → Bool
status_eq pending pending = true
status_eq running running = true
status_eq ok ok = true
status_eq warn warn = true
status_eq error error = true
status_eq skipped skipped = true
status_eq _ _ = false
