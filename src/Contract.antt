-- ===== src/Contract.antt =====
-- The life cycle of a contract: packages/domain/src/contract, and the services of
-- apps/api/src/contracts that apply it to the database.
pub mod EventType
pub mod Types
pub mod Machine
pub mod Events
pub mod Rows
pub mod Dates
pub mod Deadlines
pub mod Store
pub mod Service
