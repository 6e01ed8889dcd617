-- ===== src/Examples.antt =====
-- Runs on concrete inputs, and the theorems applied to such inputs.
mod Samples
mod Versions
mod GitHubApi
mod Cycles
mod Parts
mod Edges
mod Disk
mod GoModFile
mod Dues
mod Routing
mod Services
mod Storing
mod Restart
mod Throttled
mod Operation
