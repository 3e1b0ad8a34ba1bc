-- ===== src/Expr.antt =====
-- expr.rs and the modules of expr/: DataFusion's expressions as Python sees them.
pub mod Types
pub mod Rex
pub mod DataTypes
pub mod Operands
pub mod Window
pub mod Literals
pub mod BoolExpr
pub mod Nodes
pub mod Variants
mod Tests
