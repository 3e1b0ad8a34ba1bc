-- ===== src/Expr/BoolExpr.antt =====
-- expr/bool_expr.rs: the classes of the tests on one expression. `display` is `{}` on DataFusion's
-- expressions.
use Prim.Native.String.{◌++◌ as append}
use xorq_datafusion.Common.{String}
use xorq_datafusion.Expr.Types.{Expr}

pub record PyNot : Type 0 where
  pub expr : Expr

unfoldable pub new_not : Expr → PyNot
new_not e = record { expr = e }

unfoldable pub fmt_not : (display : Expr → String) → PyNot → String
fmt_not display self = append "Not\n            Expr: " (display self.expr)

unfoldable pub not_expr : PyNot → Expr
not_expr self = self.expr

pub record PyIsNotNull : Type 0 where
  pub expr : Expr

unfoldable pub new_is_not_null : Expr → PyIsNotNull
new_is_not_null e = record { expr = e }

unfoldable pub fmt_is_not_null : (display : Expr → String) → PyIsNotNull → String
fmt_is_not_null display self = append "IsNotNull\n            Expr: " (display self.expr)

unfoldable pub is_not_null_expr : PyIsNotNull → Expr
is_not_null_expr self = self.expr

pub record PyIsNull : Type 0 where
  pub expr : Expr

unfoldable pub new_is_null : Expr → PyIsNull
new_is_null e = record { expr = e }

unfoldable pub fmt_is_null : (display : Expr → String) → PyIsNull → String
fmt_is_null display self = append "IsNull\n            Expr: " (display self.expr)

unfoldable pub is_null_expr : PyIsNull → Expr
is_null_expr self = self.expr

pub record PyIsTrue : Type 0 where
  pub expr : Expr

unfoldable pub new_is_true : Expr → PyIsTrue
new_is_true e = record { expr = e }

unfoldable pub fmt_is_true : (display : Expr → String) → PyIsTrue → String
fmt_is_true display self = append "IsTrue\n            Expr: " (display self.expr)

unfoldable pub is_true_expr : PyIsTrue → Expr
is_true_expr self = self.expr

pub record PyIsFalse : Type 0 where
  pub expr : Expr

unfoldable pub new_is_false : Expr → PyIsFalse
new_is_false e = record { expr = e }

unfoldable pub fmt_is_false : (display : Expr → String) → PyIsFalse → String
fmt_is_false display self = append "IsFalse\n            Expr: " (display self.expr)

unfoldable pub is_false_expr : PyIsFalse → Expr
is_false_expr self = self.expr

pub record PyIsUnknown : Type 0 where
  pub expr : Expr

unfoldable pub new_is_unknown : Expr → PyIsUnknown
new_is_unknown e = record { expr = e }

unfoldable pub fmt_is_unknown : (display : Expr → String) → PyIsUnknown → String
fmt_is_unknown display self = append "IsUnknown\n            Expr: " (display self.expr)

unfoldable pub is_unknown_expr : PyIsUnknown → Expr
is_unknown_expr self = self.expr

pub record PyIsNotTrue : Type 0 where
  pub expr : Expr

unfoldable pub new_is_not_true : Expr → PyIsNotTrue
new_is_not_true e = record { expr = e }

unfoldable pub fmt_is_not_true : (display : Expr → String) → PyIsNotTrue → String
fmt_is_not_true display self = append "IsNotTrue\n            Expr: " (display self.expr)

unfoldable pub is_not_true_expr : PyIsNotTrue → Expr
is_not_true_expr self = self.expr

pub record PyIsNotFalse : Type 0 where
  pub expr : Expr

unfoldable pub new_is_not_false : Expr → PyIsNotFalse
new_is_not_false e = record { expr = e }

unfoldable pub fmt_is_not_false : (display : Expr → String) → PyIsNotFalse → String
fmt_is_not_false display self = append "IsNotFalse\n            Expr: " (display self.expr)

unfoldable pub is_not_false_expr : PyIsNotFalse → Expr
is_not_false_expr self = self.expr

pub record PyIsNotUnknown : Type 0 where
  pub expr : Expr

unfoldable pub new_is_not_unknown : Expr → PyIsNotUnknown
new_is_not_unknown e = record { expr = e }

unfoldable pub fmt_is_not_unknown : (display : Expr → String) → PyIsNotUnknown → String
fmt_is_not_unknown display self = append "IsNotUnknown\n            Expr: " (display self.expr)

unfoldable pub is_not_unknown_expr : PyIsNotUnknown → Expr
is_not_unknown_expr self = self.expr

pub record PyNegative : Type 0 where
  pub expr : Expr

unfoldable pub new_negative : Expr → PyNegative
new_negative e = record { expr = e }

unfoldable pub fmt_negative : (display : Expr → String) → PyNegative → String
fmt_negative display self = append "Negative\n            Expr: " (display self.expr)

unfoldable pub negative_expr : PyNegative → Expr
negative_expr self = self.expr
