-- ===== src/Tests.antt =====
-- Runs of the code at small inputs, and the theorems at inputs that meet their hypotheses.
mod Data
mod Policies
mod Handlers
mod Settings
mod Files
mod Readdir
mod Cache
