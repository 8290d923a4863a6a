-- ===== src/Tests.antt =====
-- Concrete runs: each witness applies a theorem to an input on which its hypotheses hold.
pub mod Edits
pub mod Anchors
pub mod Texts
pub mod Sessions
pub mod Guards
pub mod Repeats
pub mod Commits
pub mod Pairings
pub mod Diffs
pub mod Drifts
pub mod Batches
pub mod Heals
pub mod Views
