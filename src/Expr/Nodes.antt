-- ===== src/Expr/Nodes.antt =====
-- The classes of expr/ for expressions that are not tests: alias.rs, column.rs, scalar_variable.rs,
-- like.rs, literal.rs, binary_expr.rs, cast.rs, case.rs, wildcard.rs and aggregate_expr.rs. The
-- escape character of a pattern, the metadata of a literal and the distinct flag of an aggregate
-- are left out.
use xorq_datafusion.Common.{Bool, Option, none, some, List, [], ◌∷◌, String}
use xorq_datafusion.DataType.Types.{DataType, ScalarValue}
use xorq_datafusion.Expr.Types.{
  Operator, Expr, Exprs, MaybeExpr, absent, present, WhenThens, done, arm,
}
use xorq_datafusion.Expr.Rex.{to_list}

pub record PyAlias : Type 0 where
  pub expr : Expr
  pub alias_name : String

unfoldable pub new_alias : Expr → String → PyAlias
new_alias e name = record { expr = e; alias_name = name }

unfoldable pub alias_text : PyAlias → String
alias_text self = self.alias_name

unfoldable pub alias_expr : PyAlias → Expr
alias_expr self = self.expr

-- `relation` is shown as text.
pub record PyColumn : Type 0 where
  pub relation : Option String
  pub name : String

unfoldable pub name_of_column : PyColumn → String
name_of_column self = self.name

unfoldable pub column_relation : PyColumn → Option String
column_relation self = self.relation

pub record PyScalarVariable : Type 0 where
  pub data_type : DataType
  pub variables : List String

unfoldable pub new_scalar_variable : DataType → List String → PyScalarVariable
new_scalar_variable t names = record { data_type = t; variables = names }

unfoldable pub variable_type : PyScalarVariable → DataType
variable_type self = self.data_type

unfoldable pub variable_names : PyScalarVariable → List String
variable_names self = self.variables

pub record PyLike : Type 0 where
  pub is_negated : Bool
  pub expr : Expr
  pub pattern' : Expr
  pub case_insensitive : Bool

unfoldable pub negated : PyLike → Bool
negated self = self.is_negated

unfoldable pub like_expr : PyLike → Expr
like_expr self = self.expr

unfoldable pub like_pattern : PyLike → Expr
like_pattern self = self.pattern'

pub record PyLiteral : Type 0 where
  pub value : ScalarValue

unfoldable pub new_literal : ScalarValue → PyLiteral
new_literal v = record { value = v }

pub record PyBinaryExpr : Type 0 where
  pub l : Expr
  pub operator' : Operator
  pub r : Expr

unfoldable pub left_expr : PyBinaryExpr → Expr
left_expr self = self.l

unfoldable pub right_expr : PyBinaryExpr → Expr
right_expr self = self.r

unfoldable pub op : (display : Operator → String) → PyBinaryExpr → String
op display self = display self.operator'

pub record PyCast : Type 0 where
  pub expr : Expr
  pub data_type : DataType

unfoldable pub cast_expr : PyCast → Expr
cast_expr self = self.expr

unfoldable pub cast_type : PyCast → DataType
cast_type self = self.data_type

pub record PyCase : Type 0 where
  pub subject : MaybeExpr
  pub arms : WhenThens
  pub otherwise : MaybeExpr

unfoldable pub to_option : MaybeExpr → Option Expr
to_option absent = none
to_option (present e) = some e

unfoldable pub pairs : WhenThens → List (Expr × Expr)
pairs done = []
pairs (arm when then' rest) = (when, then') ∷ pairs rest

unfoldable pub case_expr : PyCase → Option Expr
unfolding to_option
case_expr self = to_option self.subject

unfoldable pub when_then_expr : PyCase → List (Expr × Expr)
unfolding pairs
when_then_expr self = pairs self.arms

unfoldable pub else_expr : PyCase → Option Expr
unfolding to_option
else_expr self = to_option self.otherwise

pub record PyWildcard : Type 0 where
  pub qualifier : Option String

-- `table` gives the table's name of a reference.
unfoldable pub new_wildcard : (table : String → String) → Option String → PyWildcard
new_wildcard table (some reference) = record { qualifier = some (table reference) }
new_wildcard table none = record { qualifier = none }

unfoldable pub wildcard_qualifier : PyWildcard → Option String
wildcard_qualifier self = self.qualifier

pub record PyAggregateFunction : Type 0 where
  pub func : String
  pub params : Exprs

unfoldable pub aggregate_type : PyAggregateFunction → String
aggregate_type self = self.func

unfoldable pub aggregate_args : PyAggregateFunction → List Expr
unfolding to_list
aggregate_args self = to_list self.params
