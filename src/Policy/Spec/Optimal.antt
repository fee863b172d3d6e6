-- ===== src/Policy/Spec/Optimal.antt =====
-- What mfs, lfs, lus and newest promise: the outcome against the candidates and their measures.
pub mod Measures
pub mod Most
pub mod Least
pub mod Used
pub mod Dated
pub mod Latest
