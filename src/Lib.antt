-- ===== src/Lib.antt =====
-- buildfab runs the stages of a project: a stage is a list of steps, a step names an action and the
-- steps that it requires, and an action is a shell command or a built-in check, possibly one of several
-- variants. This library models the core of the Go package pkg/buildfab and of internal/config in
-- cubical type theory.
--
-- How the parts interact. A configuration is read, merged with what it includes and validated. For a
-- stage, the runner builds a graph of the steps, and the executor starts each step when the steps
-- that it requires are completed; goroutines execute the actions. Everything that happens to a step is
-- reported to a callback, and the ordered output manager, which is one, prints the reports in the
-- order in which the steps are declared. The results decide the verdict of the stage.
--
-- Which file models which part:
--   Base        shared helpers: tests on numbers, bytes, lists, sets of names, maps, errors
--   Config      `Config`, `Action`, `Stage`, `Step`, `GetAction`, `GetStage` (pkg/buildfab/buildfab.go)
--   Config/Validate, Valid       `Validate`
--   Config/Merge                 `mergeConfig` (internal/config/config.go)
--   Config/Include, Resolved     `ResolveIncludes`, `LoadIncludedConfigs` (internal/config/include.go)
--   Config/Loading, Loaded       `processIncludes` (pkg/buildfab/config.go)
--   Config/Loader                `LoadConfig` (pkg/buildfab/config.go), `Load` and `LoadFromDir`
--               (internal/config/config.go); Config/Accepted and Config/FromDir what they end with
--   Config/Variables             `ResolveVariables` (internal/config/config.go); Config/Closed,
--               Config/Resolving its loops
--   Actions     the built-in actions and their registry (pkg/buildfab/actions.go); Actions/Internal the
--               registry of internal/actions/registry.go, Actions/Softer both of them
--   Dag         `buildDAG` and `detectCycles` (pkg/buildfab/buildfab.go), its proofs in Dag/
--   Executor    `executeDAGWithCallback`: the maps, the channel and the mode of the starter goroutine
--               are the record `Execution`, one step of one goroutine is a constructor of `Next`;
--               Executor/Finished leads it to its end, Executor/Built joins it to the graphs that
--               `buildDAG` returns
--   Streaming   `executeDAGWithOrderedStreaming` and `executeDAGWithParallel`, as steps over the same
--               record
--   Output      `OrderedOutputManager` (pkg/buildfab/ordered_output.go): each method is a function of the
--               manager, what it prints is appended to `log`; its proofs in Output/
--   Output/Message               `enhanceMessage`, `extractCommand`, `formatExecutionTime`
--   Runner      `executeActionForDAGWithCallback` and what it calls; Runner/Direct `RunStageStep` and
--               `runActionInternal`; Runner/Interpolated `InterpolateStep`
--               (pkg/buildfab/variables.go); Runner/DryRun the dry runs and `RunAction`; Runner/Verdict the
--               error of a stage; Runner/Shell `getShellCommand`
--   Expression  the values of conditions (pkg/buildfab/expression.go), with their comparison, the
--               functions, the context with the platform variables (pkg/buildfab/platform.go), and
--               Expression/Parse, the evaluation; its proofs are the other files of Expression/
--   Simple      the results, skipped steps and summaries of `SimpleRunner` (pkg/buildfab/simple.go);
--               Simple/Callback `SimpleStepCallback`
--   Tests       small inputs, and an instance of each theorem that has hypotheses
--
-- Choices. Strings are lists of bytes, a map is the list of its entries or, where it holds true
-- only, of its keys, and the order in which Go ranges over a map is a parameter or the choice of a
-- step. The search for cycles runs on fuel, one unit more than there are nodes, which is enough
-- since every call marks a node; includes run on fuel, one unit more than there are files, which
-- is enough since a file is not entered within itself; the evaluation of a condition runs on fuel, one
-- unit more than its bytes, since its parts are shorter; a command is resolved on fuel, one unit more
-- than its `$`, since each round removes one. Numbers are natural numbers; durations are
-- nanoseconds. A mutex that is held for a whole method or block makes it one step; the executor's
-- steps are interleaved in every order. Commands, the file system, YAML, regular expressions, floats
-- and the platform are parameters.
--
-- Not modelled: the display in order of the executors without a callback and the commands that they
-- stream, the dry run of pkg/buildfab/simple.go, version detection, the command line and everything
-- that only prints.
pub mod Actions
pub mod Base
pub mod Config
pub mod Dag
pub mod Executor
pub mod Expression
pub mod Output
pub mod Runner
pub mod Simple
pub mod Streaming
pub mod Tests
