-- ===== src/Formula.antt =====
-- packages/pricing/src/formula: the language of the pricing formulas, from the text of a formula to
-- its value.
pub mod Outcome
pub mod Tokenizer
pub mod Ast
pub mod Parser
pub mod Names
pub mod Evaluator
pub mod Validate
