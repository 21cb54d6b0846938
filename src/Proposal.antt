-- ===== src/Proposal.antt =====
-- Commercial proposals: packages/domain/src/proposal.
pub mod Types
pub mod Machine
pub mod Events
pub mod FollowUps
