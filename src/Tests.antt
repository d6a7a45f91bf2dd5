-- ===== src/Tests.antt =====
-- Runs of the components on concrete inputs, and the theorems applied to them.
mod Http
mod Series
mod Strings
mod Uri
mod Lru
mod Dns
mod Scheduler
mod Executor
mod Upstream
mod Poller
mod Parallel
