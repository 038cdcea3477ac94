-- ===== src/Simple/Counted.antt =====
-- The counts of a summary, and the final status of an action.
use buildfab.Base.{
  ℕ, suc, ◌+◌, Bool, true, false, ◌||◌, List, [], ◌∷◌, some, ◌≡◌, refl, ◌∙◌, arith, All, length,
  ltb, if◌then◌else◌, Bool-cases, inl, inr,
}
use buildfab.Output.Status.{StepStatus, pending, running, ok, warn, error, skipped, status_eq}
use buildfab.Simple.{
  StepResult, status_count, summary_lines, terminated_line, failed_line, warning_line, success_line,
  scan_results, final_status,
}

-- A status that a completed step has.
unfoldable pub is_final : StepStatus → Bool
is_final pending = false
is_final running = false
is_final _ = true

unfoldable pub total : List (StepStatus × ℕ) → ℕ
total [] = 0
total ((_, n) ∷ rest) = n + total rest

one_of_four :
    (s : StepStatus) (rs : List StepResult) (r : StepResult)
    → r.status ≡ s
    → is_final s ≡ true
    → status_count (r ∷ rs) error
        + (status_count (r ∷ rs) warn
            + (status_count (r ∷ rs) ok + (status_count (r ∷ rs) skipped)))
      ≡ suc (
          status_count rs error
          + (status_count rs warn + (status_count rs ok + (status_count rs skipped))))
unfolding status_count status_eq is_final
one_of_four pending rs r e final = cc
one_of_four running rs r e final = cc
one_of_four ok rs r e final = rw e (omega arith)
one_of_four warn rs r e final = rw e (omega arith)
one_of_four error rs r e final = rw e (omega arith)
one_of_four skipped rs r e final = rw e (omega arith)

counts-add :
    (rs : List StepResult)
    → All (λ r. is_final r.status ≡ true) rs
    → status_count rs error
        + (status_count rs warn + (status_count rs ok + (status_count rs skipped)))
      ≡ length rs
unfolding status_count
counts-add [] final = omega arith
counts-add (r ∷ rs) final =
    omega (arith, counts-add rs final.1, one_of_four r.status rs r refl final.0)

-- If every result has a final status, the counts of the summary add up to the number of the results.
pub total-summary_lines :
    (rs : List StepResult)
    → All (λ r. is_final r.status ≡ true) rs
    → total (summary_lines rs) ≡ length rs
unfolding total summary_lines
total-summary_lines [] final = refl
total-summary_lines (r ∷ rs) final = omega (arith, counts-add (r ∷ rs) final)

scan-status_count :
    (rs : List StepResult) (warned : Bool)
    → ((scan_results rs warned).0 ≡ ltb 0 (status_count rs error))
      × ((scan_results rs warned).0 ≡ false
          → (scan_results rs warned).1 ≡ (warned || ltb 0 (status_count rs warn)))
unfolding scan_results status_count
scan-status_count [] warned = (refl, λ h. ground arith)
scan-status_count (r ∷ rs) warned = elim (Bool-cases (status_eq r.status error)) [
  | inl failed ↦ rw (failed, scan_results) (ground arith, λ h. cc)
  | inr other ↦
      rw (other, scan_results)
        (let (e, w) = scan-status_count rs (warned || status_eq r.status warn) in
          (e, λ h. w h ∙ ground arith))
]

-- When there are results, the final status that RunAction prints is that it was terminated if it
-- was, or else that it failed if the count of errors is positive, or else a warning if the count of
-- warnings is, or else success.
pub final_status-status_count :
    (terminated : Bool) (r : StepResult) (rs : List StepResult)
    → final_status terminated (r ∷ rs)
      ≡ some (
          if terminated
          then terminated_line
          else if ltb 0 (status_count (r ∷ rs) error)
          then failed_line
          else if ltb 0 (status_count (r ∷ rs) warn)
          then warning_line
          else success_line)
unfolding final_status
final_status-status_count terminated r rs = ground (arith, scan-status_count (r ∷ rs) false)
