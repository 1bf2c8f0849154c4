-- ===== src/RolloutDraft.antt =====
-- The rollout drafts of a site (internal/database/rollout_drafts.go): a draft's life in Drafts and Closing, the
-- claim that queues the change sets in Queueing, and the proofs in the other children. A database
-- transaction that ends without Commit leaves the tables as they were.
pub mod Drafts
pub mod Closing
pub mod Queueing
pub mod Sequence
pub mod Claims
pub mod Coverage
