-- ===== src/Streaming/Outcome.antt =====
-- What an execution without a callback ends with.
use buildfab.Base.{
  Str, Bool, true, false, List, [], ◌≡◌, sym, ◌∙◌, arith, count, ◌≤◌, count-nil, contains-count, ap,
  inl, inr,
}
use buildfab.Base.Dict
use buildfab.Config.{Step}
use buildfab.Dag.{Dag}
use buildfab.Executor.{Execution, Mode, closed, draining, Reachable}
use buildfab.Executor.Invariant.{names_of}
use buildfab.Executor.Safety.{closed_results}
use buildfab.Streaming.{live, crashed, StreamNext, StreamReachable, crash}
use buildfab.Streaming.Refines.{Simulated, reached}

module _ (dag : Dag) (should_execute : Step → Bool)
    (distinct : (n : Str) → count (Dict.keys dag) n ≤ 1) where
  -- On a graph with distinct names, what an execution without a callback reaches while it is not
  -- cancelled is, but for the mode of its starter, what the executor with a callback reaches: its
  -- results, maps and channel are the same.
  pub stream_refines :
      {s : Execution}
      → StreamReachable dag should_execute (live s)
      → s.cancelled ≡ false
      → (m : Mode) × Reachable dag should_execute (record s { mode = m })
  stream_refines {s} r on =
      let h = reached dag should_execute distinct r on in (h.mode, h.reachable)

  at_close :
      (s : Execution)
      → s.mode ≡ closed
      → (h : Simulated dag should_execute distinct s) → h.mode ≡ closed
  at_close s shut h = elim h.behind_by [
    | inl same ↦ same ∙ shut
    | inr (d, _, _) ↦ let no : draining ≡ closed = sym d ∙ shut in cc
  ]

  -- On a graph with distinct names, when an execution without a callback that is not cancelled has
  -- closed its channel, nothing runs, every result has been taken, and there is exactly one result
  -- for each node and none for any other name.
  pub stream_closed :
      {s : Execution}
      → StreamReachable dag should_execute (live s)
      → s.cancelled ≡ false
      → s.mode ≡ closed
      → (s.running ≡ [])
        × (s.result_chan ≡ [])
        × ((n : Str) → count (names_of s.results) n ≡ count (Dict.keys dag) n)
  stream_closed {s} r on shut =
      let h = reached dag should_execute distinct r on in
      let (idle, taken, all) =
        closed_results dag should_execute distinct h.reachable (at_close s shut h) in
      (
        idle,
        taken,
        elim all [ inl gone ↦ let no : true ≡ false = sym gone ∙ on in cc | inr each ↦ each ],
      )

  -- On a graph with distinct names, no step of an execution without a callback that is not cancelled
  -- sends on a closed channel.
  pub stream_never_crashes :
      {s : Execution}
      → StreamReachable dag should_execute (live s)
      → s.cancelled ≡ false
      → ¬ (StreamNext dag should_execute s crashed)
  stream_never_crashes {s} r on n = no_crash s n r on
    where
      no_crash :
          (s : Execution)
          → StreamNext dag should_execute s crashed
          → StreamReachable dag should_execute (live s)
          → s.cancelled ≡ false
          → ⊥
      no_crash s (crash name runs shut) r on =
          let idle = (stream_closed r on shut).0 in
          let a = contains-count s.running name runs in
          let b = ap (λ (l : List Str). count l name) idle ∙ count-nil name in absurd (omega arith)
