-- ===== src/Examples.antt =====
-- Runs of the models at concrete inputs.
mod AppRuns
mod Data
mod PartRuns
mod StoreRuns
mod SyncRuns
