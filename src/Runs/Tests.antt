-- ===== src/Runs/Tests.antt =====
-- Tests of the runs platform: sample values, and the theorems applied to them.
mod Samples
mod Inputs
mod Updates
mod Decisions
mod Worlds
mod Histories
mod Reviews
mod Execution
mod Executions
mod Clients
