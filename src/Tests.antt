-- ===== src/Tests.antt =====
-- Runs of the model on concrete inputs.
mod RingRuns
mod WaitRuns
mod BlockingRuns
mod OneShotRuns
mod MpscRuns
mod SignalRuns
mod MpmcRuns
mod ParkRuns
mod PoolRuns
mod Fixtures
mod NotifyRuns
mod ThreadRuns
mod ClosingRuns
mod HistoryRuns
