-- ===== src/Tests.antt =====
-- Runs of the model on concrete inputs, and the theorems at inputs where their hypotheses hold.
mod DecodeRuns
mod ValuesRuns
mod AlignRuns
mod SpellRuns
mod RollRuns
mod RecordingRuns
mod TraceRuns
mod CompareRuns
mod MetricsRuns
mod ScenarioRuns
