-- ===== src/Specification.antt =====
-- The specification crate's domain (crates/specification/src/domain): the tree of a specification,
-- and the reader that decides in memory whether a candidate satisfies it.
pub mod Operator
pub mod Operand
pub mod MemberPath
pub mod Ast
pub mod NullTest
pub mod Scope
pub mod Truth
pub mod Evaluate
pub mod Record
pub mod Value
mod Examples
