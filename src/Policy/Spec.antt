-- ===== src/Policy/Spec.antt =====
-- The loops of the policies against the list of candidates.
pub mod Every
pub mod First
pub mod Best
pub mod Guards
pub mod Optimal
pub mod Choice
pub mod Allowed
pub mod Measured
pub mod Listed
pub mod Recent
pub mod Early
pub mod Contract
pub mod Names
pub mod Appends
pub mod Failing
