-- ===== src/Fuse/Results.antt =====
-- How the results of the calls on the several branches become the result of the handler.
pub mod Attempts
pub mod Actions
pub mod Creations
pub mod Links
pub mod Rounds
pub mod Renames
pub mod Renamed
pub mod Retried
pub mod Preserved
pub mod Linked
pub mod Lost
pub mod Idle
