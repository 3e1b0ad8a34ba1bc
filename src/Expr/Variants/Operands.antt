-- ===== src/Expr/Variants/Operands.antt =====
-- What Python reads of an expression by the object of its class, and by `rex_call_operands`.
use Prim.Native.String.{◌++◌ as append}
use mathlib.Core.Path.{ap₂}
use xorq_datafusion.Common.{
  ◌≡◌, refl, false, Option, none, some, List, [], ◌∷◌, ◌++◌, String, Result, ok, err, is_ok,
  runtime_error, ap,
}
use xorq_datafusion.Expr.Types.{
  Expr, binary_expr, eq, MaybeExpr, absent, present, WhenThens, done, arm,
}
use xorq_datafusion.Expr.Rex.{
  simple_arms, searched_arms, else_operand, case_arms, rex_call_operands,
}
use xorq_datafusion.Expr.BoolExpr.{
  not_expr, is_not_null_expr, is_null_expr, is_true_expr, is_false_expr, is_unknown_expr,
  is_not_true_expr, is_not_false_expr, is_not_unknown_expr, negative_expr, new_not, new_is_not_null,
  new_is_null, new_is_true, new_is_false, new_is_unknown, new_is_not_true, new_is_not_false,
  new_is_not_unknown, new_negative,
}
use xorq_datafusion.Expr.Nodes.{
  new_alias, alias_expr, like_expr, like_pattern, left_expr, right_expr, cast_expr, case_expr,
  when_then_expr, else_expr, aggregate_args, to_option, pairs,
}
use xorq_datafusion.Expr.Variants.{
  Variant, py_alias, py_column, py_scalar_variable, py_like, py_literal_expr, py_binary_expr,
  py_not, py_is_not_null, py_is_null, py_is_true, py_is_false, py_is_unknown, py_is_not_true,
  py_is_not_false, py_is_not_unknown, py_negative, py_cast, py_case, py_wildcard,
  py_aggregate_function, to_variant,
}

-- A branch's condition: an equation with the subject, if there is one.
abbrev condition : Option Expr → Expr → Expr
condition none when = when
condition (some e) when = binary_expr e eq when

abbrev branches : Option Expr → List (Expr × Expr) → List Expr
branches subject [] = []
branches subject ((when, then') ∷ rest) = condition subject when ∷ then' ∷ branches subject rest

abbrev listed : Option Expr → List Expr
listed none = []
listed (some e) = e ∷ []

-- The operands that an object gives by its getters, a leaf itself; a wildcard has none.
abbrev pub getter_operands : Expr → Variant → Option (List Expr)
getter_operands e (py_alias a) = some (alias_expr a ∷ [])
getter_operands e (py_column c) = some (e ∷ [])
getter_operands e (py_scalar_variable c) = some (e ∷ [])
getter_operands e (py_literal_expr c) = some (e ∷ [])
getter_operands e (py_like a) = some (like_expr a ∷ like_pattern a ∷ [])
getter_operands e (py_binary_expr b) = some (left_expr b ∷ right_expr b ∷ [])
getter_operands e (py_not t) = some (not_expr t ∷ [])
getter_operands e (py_is_not_null t) = some (is_not_null_expr t ∷ [])
getter_operands e (py_is_null t) = some (is_null_expr t ∷ [])
getter_operands e (py_is_true t) = some (is_true_expr t ∷ [])
getter_operands e (py_is_false t) = some (is_false_expr t ∷ [])
getter_operands e (py_is_unknown t) = some (is_unknown_expr t ∷ [])
getter_operands e (py_is_not_true t) = some (is_not_true_expr t ∷ [])
getter_operands e (py_is_not_false t) = some (is_not_false_expr t ∷ [])
getter_operands e (py_is_not_unknown t) = some (is_not_unknown_expr t ∷ [])
getter_operands e (py_negative t) = some (negative_expr t ∷ [])
getter_operands e (py_cast c) = some (cast_expr c ∷ [])
getter_operands e (py_case c) =
    some (branches (case_expr c) (when_then_expr c) ++ listed (else_expr c))
getter_operands e (py_wildcard w) = none
getter_operands e (py_aggregate_function f) = some (aggregate_args f)

module _ (display debug : Expr → String) (table : String → String) where
  abbrev Gives : Expr → Option (List Expr) → Type 0
  Gives e none = is_ok (rex_call_operands display e) ≡ false
  Gives e (some es) = rex_call_operands display e ≡ ok es

  -- The object of an expression agrees with its operands, or the error names the expression.
  abbrev pub Agrees : Expr → Result Variant → Type 0
  Agrees e (ok v) = Gives e (getter_operands e v)
  Agrees e (err x) =
      x ≡ runtime_error (append "Cannot convert this Expr to a Python object: " (debug e))

  arms-branches :
      (subject : MaybeExpr) (arms : WhenThens)
      → case_arms subject arms ≡ branches (to_option subject) (pairs arms)
  unfolding case_arms simple_arms searched_arms to_option pairs
  arms-branches absent done = refl
  arms-branches (present e) done = refl
  arms-branches absent (arm w t rest) = ap (λ es. w ∷ t ∷ es) (arms-branches absent rest)
  arms-branches (present e) (arm w t rest) =
      ap (λ es. binary_expr e eq w ∷ t ∷ es) (arms-branches (present e) rest)

  else-listed : (otherwise : MaybeExpr) → else_operand otherwise ≡ listed (to_option otherwise)
  unfolding else_operand to_option
  else-listed absent = refl
  else-listed (present e) = refl

  -- The expressions that an object of an expression's class holds are the operands that the walk
  -- gives, where the conditions of a simple CASE are equations with its subject; only a wildcard
  -- has an object and no operands. An expression without a class is named in the error.
  pub to_variant-Agrees : (e : Expr) → Agrees e (to_variant debug table e)
  unfolding to_variant rex_call_operands new_alias alias_expr like_expr like_pattern left_expr
      right_expr cast_expr case_expr when_then_expr else_expr aggregate_args new_not not_expr
      new_is_not_null is_not_null_expr new_is_null is_null_expr new_is_true is_true_expr
      new_is_false is_false_expr new_is_unknown is_unknown_expr new_is_not_true is_not_true_expr
      new_is_not_false is_not_false_expr new_is_not_unknown is_not_unknown_expr new_negative
      negative_expr
  to_variant-Agrees (Expr.case subject arms otherwise) =
      ap₂ (λ xs ys. ok (xs ++ ys)) (arms-branches subject arms) (else-listed otherwise)
  to_variant-Agrees _ = refl
