-- ===== src/Tests.antt =====
-- The theorems at concrete inputs, and runs of the definitions.
mod Contracts
mod Formulas
mod Codes
mod Clauses
mod Proposals
mod Prices
mod Engine
mod Signers
mod Services
mod Dates
