-- ===== src/Signature.antt =====
-- Electronic signature: packages/domain/src/signature.
pub mod Order
