-- ===== src/Expr/Operands.antt =====
-- What Python may rely on when it walks an expression by `rex_type`, `rex_call_operator` and
-- `rex_call_operands`.

use xorq_datafusion.Common.{
  ℕ, suc, ◌+◌, ◌<◌, ◌≡◌, true, List, [], ◌∷◌, ◌++◌, String, arith, ok, is_ok,
}
use xorq_datafusion.DataType.Types.{RexType}
use xorq_datafusion.Expr.Types.{
  Operator, Expr, Exprs, nil, cons, MaybeExpr, absent, present, WhenThens, done, arm, size,
  size_all, size_maybe, size_arms,
}
use xorq_datafusion.Expr.Rex.{
  rex_type, to_list, simple_arms, searched_arms, else_operand, case_arms, rex_call_operands,
  rex_call_operator,
}

-- An expression with an operator is a call, and its operands are given.
pub operator-call :
    (display : Expr → String) (display_op : Operator → String) (debug : Expr → String) (e : Expr)
    → is_ok (rex_call_operator display_op debug e) ≡ true
    → (rex_type e ≡ RexType.call) × (is_ok (rex_call_operands display e) ≡ true)
unfolding rex_type rex_call_operands rex_call_operator
operator-call display display_op debug (Expr.alias e n) h = ground arith
operator-call display display_op debug _ h = ground arith

abbrev AllBelow : ℕ → List Expr → Type 0
AllBelow n [] = Unit {0}
AllBelow n (e ∷ es) = (size e < n) × AllBelow n es

AllBelow-append :
    (n : ℕ) (xs ys : List Expr) → AllBelow n xs → AllBelow n ys → AllBelow n (xs ++ ys)
AllBelow-append n [] ys h k = k
AllBelow-append n (x ∷ xs) ys h k = (h.0, AllBelow-append n xs ys h.1 k)

to_list-AllBelow : (n : ℕ) (es : Exprs) → size_all es < n → AllBelow n (to_list es)
unfolding to_list size
to_list-AllBelow n nil h = tt
to_list-AllBelow n (cons e es) h = (omega arith, to_list-AllBelow n es (omega arith))

-- No expression is empty.
size_pos : (e : Expr) → 0 < size e
unfolding size
size_pos (Expr.alias e n) = omega arith
size_pos _ = omega arith

simple_arms-AllBelow :
    (n : ℕ) (e : Expr) (arms : WhenThens)
    → size e + size_arms arms < n
    → AllBelow n (simple_arms e arms)
unfolding simple_arms size
simple_arms-AllBelow n e done h = tt
simple_arms-AllBelow n e (arm w t rest) h = (
  omega (arith, size_pos t),
  (omega (arith, size_pos w), simple_arms-AllBelow n e rest (omega arith)),
)

searched_arms-AllBelow :
    (n : ℕ) (arms : WhenThens) → size_arms arms < n → AllBelow n (searched_arms arms)
unfolding searched_arms size
searched_arms-AllBelow n done h = tt
searched_arms-AllBelow n (arm w t rest) h =
    (omega arith, (omega arith, searched_arms-AllBelow n rest (omega arith)))

case_arms-AllBelow :
    (n : ℕ) (subject : MaybeExpr) (arms : WhenThens)
    → size_maybe subject + size_arms arms < n
    → AllBelow n (case_arms subject arms)
unfolding case_arms size
case_arms-AllBelow n absent arms h = searched_arms-AllBelow n arms (omega arith)
case_arms-AllBelow n (present e) arms h = simple_arms-AllBelow n e arms h

else_operand-AllBelow : (n : ℕ) (e : MaybeExpr) → size_maybe e < n → AllBelow n (else_operand e)
unfolding else_operand size
else_operand-AllBelow n absent h = tt
else_operand-AllBelow n (present e) h = (h, tt)

-- A leaf is its own operand, and the operands of any other expression are smaller than it.
abbrev pub Falls : RexType → Expr → List Expr → Type 0
Falls RexType.reference e es = es ≡ e ∷ []
Falls RexType.literal e es = es ≡ e ∷ []
Falls _ e es = AllBelow (size e) es

case_operands-AllBelow :
    (subject otherwise : MaybeExpr) (arms : WhenThens)
    → AllBelow
        (size (Expr.case subject arms otherwise))
        (case_arms subject arms ++ else_operand otherwise)
unfolding size
case_operands-AllBelow subject otherwise arms =
    AllBelow-append _ (case_arms subject arms) (else_operand otherwise)
      (case_arms-AllBelow _ subject arms (omega arith))
      (else_operand-AllBelow _ otherwise (omega arith))

-- A walk down the operands ends: a reference or a literal is its own one operand, and each operand
-- of any other expression has fewer nodes than it, the equations that a simple CASE makes of its
-- conditions included.
pub rex_call_operands-Falls :
    (display : Expr → String) (e : Expr) (es : List Expr)
    → rex_call_operands display e ≡ ok es
    → Falls (rex_type e) e es
unfolding rex_call_operands rex_type size
rex_call_operands-Falls display (Expr.alias e n) es h = ground arith
rex_call_operands-Falls display (Expr.case subject arms otherwise) es h =
    ground (arith, case_operands-AllBelow subject otherwise arms)
rex_call_operands-Falls display (Expr.scalar_function f args) es h =
    ground (arith, to_list-AllBelow (suc (size_all args)) args (omega arith))
rex_call_operands-Falls display (Expr.aggregate_function f args) es h =
    ground (arith, to_list-AllBelow (suc (size_all args)) args (omega arith))
rex_call_operands-Falls display (Expr.window_function f args) es h =
    ground (arith, to_list-AllBelow (suc (size_all args)) args (omega arith))
rex_call_operands-Falls display (Expr.higher_order_function f args) es h =
    ground (arith, to_list-AllBelow (suc (size_all args)) args (omega arith))
rex_call_operands-Falls display (Expr.in_list e args negated) es h = ground (
  arith,
  to_list-AllBelow (suc (size e + size_all args)) args (omega (arith, size_pos e)),
  size_pos e,
)
rex_call_operands-Falls display (Expr.binary_expr l op r) es h =
    ground (arith, size_pos l, size_pos r)
rex_call_operands-Falls display (Expr.like n e p i) es h = ground (arith, size_pos e, size_pos p)
rex_call_operands-Falls display (Expr.similar_to n e p i) es h =
    ground (arith, size_pos e, size_pos p)
rex_call_operands-Falls display (Expr.between e n l u) es h =
    ground (arith, size_pos e, size_pos l, size_pos u)
rex_call_operands-Falls display _ es h = ground arith
