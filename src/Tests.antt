-- ===== src/Tests.antt =====
-- Small inputs and what the model does on them, with one instance of each theorem that has
-- hypotheses.
mod Config
mod Actions
mod Dag
mod Executor
mod Expression
mod Runner
mod Simple
mod Loading
mod Streaming
mod Output
