-- ===== src/Expr/Types.antt =====
-- `datafusion_expr::Expr` as far as expr.rs and the filter translations match on it: a constructor
-- for each variant, with the parts that they read. A logical plan stands by a reference.
use xorq_datafusion.Common.{ℕ, suc, ◌+◌, Bool, Option, List, String}
use xorq_datafusion.DataType.Types.{DataType, ScalarValue}

pub data Operator : Type 0 where
  eq not_eq lt lt_eq gt gt_eq and or is_distinct_from is_not_distinct_from : Operator
  regex_match regex_i_match regex_not_match regex_not_i_match : Operator
  like_match i_like_match not_like_match not_i_like_match : Operator
  plus minus multiply modulo divide string_concat : Operator
  bitwise_shift_left bitwise_shift_right bitwise_xor bitwise_and bitwise_or : Operator
  at_arrow arrow_at arrow long_arrow hash_arrow hash_long_arrow at_at integer_divide : Operator
  hash_minus at_question question question_and question_pipe colon : Operator

mutual
  pub data Expr : Type 0 where
    alias : Expr → String → Expr
    column : Option String → String → Expr
    scalar_variable : DataType → List String → Expr
    literal : ScalarValue → Expr
    binary_expr : Expr → Operator → Expr → Expr
    like : (negated : Bool) → Expr → (pattern' : Expr) → (case_insensitive : Bool) → Expr
    similar_to : (negated : Bool) → Expr → (pattern' : Expr) → (case_insensitive : Bool) → Expr
    not is_not_null is_null is_true is_false is_unknown : Expr → Expr
    is_not_true is_not_false is_not_unknown negative : Expr → Expr
    between : Expr → (negated : Bool) → (low high : Expr) → Expr
    case : MaybeExpr → WhenThens → MaybeExpr → Expr
    cast try_cast : Expr → DataType → Expr
    scalar_function aggregate_function window_function : (name : String) → Exprs → Expr
    higher_order_function : (name : String) → Exprs → Expr
    in_list : Expr → Exprs → (negated : Bool) → Expr
    exists scalar_subquery set_comparison : (plan : ℕ) → Expr
    in_subquery : Expr → (plan : ℕ) → (negated : Bool) → Expr
    wildcard : Option String → Expr
    grouping_set : Exprs → Expr
    placeholder : String → Expr
    outer_reference_column : DataType → String → Expr
    unnest : Expr → Expr
    lambda : List String → Expr → Expr
    lambda_variable : String → Option DataType → Expr

  pub data Exprs : Type 0 where
    nil : Exprs
    cons : Expr → Exprs → Exprs

  pub data MaybeExpr : Type 0 where
    absent : MaybeExpr
    present : Expr → MaybeExpr

  pub data WhenThens : Type 0 where
    done : WhenThens
    arm : (when then' : Expr) → WhenThens → WhenThens

-- The nodes of an expression.
unfoldable mutual
  pub size : Expr → ℕ
  size (alias e name) = suc (size e)
  size (column relation name) = 1
  size (scalar_variable t names) = 1
  size (literal v) = 1
  size (binary_expr l op r) = suc (size l + size r)
  size (like n e p i) = suc (size e + size p)
  size (similar_to n e p i) = suc (size e + size p)
  size (not e) = suc (size e)
  size (is_not_null e) = suc (size e)
  size (is_null e) = suc (size e)
  size (is_true e) = suc (size e)
  size (is_false e) = suc (size e)
  size (is_unknown e) = suc (size e)
  size (is_not_true e) = suc (size e)
  size (is_not_false e) = suc (size e)
  size (is_not_unknown e) = suc (size e)
  size (negative e) = suc (size e)
  size (between e n l h) = suc (size e + size l + size h)
  size (case e arms other) = suc (size_maybe e + size_arms arms + size_maybe other)
  size (cast e t) = suc (size e)
  size (try_cast e t) = suc (size e)
  size (scalar_function f es) = suc (size_all es)
  size (aggregate_function f es) = suc (size_all es)
  size (window_function f es) = suc (size_all es)
  size (higher_order_function f es) = suc (size_all es)
  size (in_list e es n) = suc (size e + size_all es)
  size (exists p) = 1
  size (scalar_subquery p) = 1
  size (set_comparison p) = 1
  size (in_subquery e p n) = suc (size e)
  size (wildcard q) = 1
  size (grouping_set es) = suc (size_all es)
  size (placeholder name) = 1
  size (outer_reference_column t name) = 1
  size (unnest e) = suc (size e)
  size (lambda names e) = suc (size e)
  size (lambda_variable name t) = 1

  pub size_all : Exprs → ℕ
  size_all nil = 0
  size_all (cons e es) = size e + size_all es

  pub size_maybe : MaybeExpr → ℕ
  size_maybe absent = 0
  size_maybe (present e) = size e

  pub size_arms : WhenThens → ℕ
  size_arms done = 0
  size_arms (arm w t rest) = size w + size t + size_arms rest
