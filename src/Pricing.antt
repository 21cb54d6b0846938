-- ===== src/Pricing.antt =====
-- The pricing engine: packages/pricing/src.
pub mod Dates
pub mod Indexes
pub mod Tiers
pub mod Schedule
pub mod Overrides
pub mod Types
pub mod Money
pub mod Rules
pub mod Revision
pub mod Trace
pub mod Line
pub mod Discount
pub mod Totals
pub mod Engine
