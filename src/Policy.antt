-- ===== src/Policy.antt =====
-- The policies of src/policy*.cpp, which choose the branches that an operation works on.
pub mod Types
pub mod Guard
pub mod Every
pub mod First
pub mod Scan
pub mod MostFree
pub mod LeastFree
pub mod LeastUsed
pub mod Newest
pub mod Random
pub mod Kind
pub mod Table
pub mod Candidates
pub mod Spec
