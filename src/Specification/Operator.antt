-- ===== src/Specification/Operator.antt =====
-- The operators of a specification, and how they print
-- (crates/specification/src/domain/operator.rs).
use Prim.Native.String.{String}

pub data Prefix : Type 0 where
  not neg : Prefix

pub data Postfix : Type 0 where
  is_null is_not_null : Postfix

pub data Comparison : Type 0 where
  eq ne gt lt ge le : Comparison

pub data Logical : Type 0 where
  and or : Logical

pub data Arithmetic : Type 0 where
  add sub mul div rem shl shr : Arithmetic

pub data Infix : Type 0 where
  comparison : Comparison → Infix
  is : Infix
  logical : Logical → Infix
  arithmetic : Arithmetic → Infix

-- `Display`
pub print_prefix : Prefix → String
print_prefix not = "NOT"
print_prefix neg = "-"

pub print_postfix : Postfix → String
print_postfix is_null = "IS NULL"
print_postfix is_not_null = "IS NOT NULL"

pub print_comparison : Comparison → String
print_comparison eq = "="
print_comparison ne = "!="
print_comparison gt = ">"
print_comparison lt = "<"
print_comparison ge = ">="
print_comparison le = "<="

pub print_logical : Logical → String
print_logical and = "AND"
print_logical or = "OR"

pub print_arithmetic : Arithmetic → String
print_arithmetic add = "+"
print_arithmetic sub = "-"
print_arithmetic mul = "*"
print_arithmetic div = "/"
print_arithmetic rem = "%"
print_arithmetic shl = "<<"
print_arithmetic shr = ">>"

unfoldable pub print_infix : Infix → String
unfolding print_comparison print_logical print_arithmetic
print_infix (comparison op) = print_comparison op
print_infix is = "IS"
print_infix (logical op) = print_logical op
print_infix (arithmetic op) = print_arithmetic op
