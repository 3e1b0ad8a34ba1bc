-- ===== src/Filter/Ibis/Meaning.antt =====
-- What the translation of ibis_filter_expression.rs keeps of a filter, and what it turns around.
use xorq_datafusion.Common.{◌≡◌, Bool, true, false, not, List, arith, ok, ap, ◌∙◌}
use xorq_datafusion.DataType.Types.{ScalarValue}
use xorq_datafusion.Expr.Types.{Expr, Exprs}
use xorq_datafusion.Filter.Python.{
  PyOperator, operator_to_py-meant, Debug, extract_scalar_list, extract_scalar_list-literals,
  literals, Engine, meaning, among, invert_if, within,
}
use xorq_datafusion.Filter.Ibis.{Ibis, Evaluates, try_from, ibis_in_list, ibis_between}

-- The filter with each IN list for NOT IN and each NOT IN for IN.
abbrev pub in_lists_negated : Expr → Expr
in_lists_negated (Expr.binary_expr l op r) =
    Expr.binary_expr (in_lists_negated l) op (in_lists_negated r)
in_lists_negated (Expr.not e) = Expr.not (in_lists_negated e)
in_lists_negated (Expr.is_not_null e) = Expr.is_not_null (in_lists_negated e)
in_lists_negated (Expr.is_null e) = Expr.is_null (in_lists_negated e)
in_lists_negated (Expr.between e negated low high) =
    Expr.between (in_lists_negated e) negated (in_lists_negated low) (in_lists_negated high)
in_lists_negated (Expr.in_list e es negated) = Expr.in_list (in_lists_negated e) es (not negated)
in_lists_negated e = e

module _ (engine : Engine) (debug : Debug) (ibis : Ibis) (laws : Evaluates engine ibis) where
  open laws use {
    eval, eval-getattr, eval-literal, eval-call, eval-invert, eval-notnull, eval-isnull, eval-isin,
    eval-notin, eval-between,
  }

  ibis_between-eval :
      (negated : Bool) (a low high o : ibis.Object) (row : engine.Row)
      → ibis_between debug ibis negated a low high ≡ ok o
      → eval o row
        ≡ invert_if engine negated (within engine (eval a row) (eval low row) (eval high row))
  unfolding ibis_between
  ibis_between-eval negated a low high o row h = grind (
    arith,
    λ (x : ibis.Object) (p : ibis.between a low high ≡ ok x). eval-between a low high row p,
    λ (x : ibis.Object) (p : ibis.invert x ≡ ok o). eval-invert x row p,
  )

  ibis_in_list-eval :
      (negated : Bool) (a o : ibis.Object) (vs : List ScalarValue) (row : engine.Row)
      → ibis_in_list debug ibis negated a vs ≡ ok o
      → eval o row ≡ invert_if engine (not negated) (among engine (eval a row) vs)
  unfolding ibis_in_list
  ibis_in_list-eval true a o vs row h = eval-isin a vs row h
  ibis_in_list-eval false a o vs row h = eval-notin a vs row h

  in_list-eval :
      (negated : Bool) (e : Expr) (es : Exprs) (a o : ibis.Object) (vs : List ScalarValue)
      (row : engine.Row)
      → extract_scalar_list debug es ≡ ok vs
      → ibis_in_list debug ibis negated a vs ≡ ok o
      → eval a row ≡ meaning engine e row
      → eval o row
        ≡ invert_if engine (not negated) (among engine (meaning engine e row) (literals es))
  in_list-eval negated e es a o vs row p q r =
      rw (← r, ← extract_scalar_list-literals debug es vs p)
        (ibis_in_list-eval negated a o vs row q)

  -- A filter that is translated evaluates on a row to what the filter means with each IN list read
  -- as NOT IN and each NOT IN as IN, if the expressions of ibis evaluate as documented.
  pub try_from-in_lists_negated :
      (e : Expr) (o : ibis.Object) (row : engine.Row)
      → try_from debug ibis e ≡ ok o
      → eval o row ≡ meaning engine (in_lists_negated e) row
  unfolding try_from meaning
  try_from-in_lists_negated (Expr.column relation name) o row h = eval-getattr name row h
  try_from-in_lists_negated (Expr.literal v) o row h = ground (arith, eval-literal v {o = o} row)
  try_from-in_lists_negated (Expr.binary_expr l op r) o row h = grind (
    arith,
    λ (f : PyOperator) (a b : ibis.Object) (p : ibis.call f a b ≡ ok o). eval-call f a b row p,
    operator_to_py-meant debug.operator op,
    λ (a : ibis.Object) (p : try_from debug ibis l ≡ ok a). try_from-in_lists_negated l a row p,
    λ (a : ibis.Object) (p : try_from debug ibis r ≡ ok a). try_from-in_lists_negated r a row p,
  )
  try_from-in_lists_negated (Expr.not e) o row h = grind (
    arith,
    λ (a : ibis.Object) (p : ibis.invert a ≡ ok o). eval-invert a row p,
    λ (a : ibis.Object) (p : try_from debug ibis e ≡ ok a). try_from-in_lists_negated e a row p,
  )
  try_from-in_lists_negated (Expr.is_not_null e) o row h = grind (
    arith,
    λ (a : ibis.Object) (p : ibis.notnull a ≡ ok o). eval-notnull a row p,
    λ (a : ibis.Object) (p : try_from debug ibis e ≡ ok a). try_from-in_lists_negated e a row p,
  )
  try_from-in_lists_negated (Expr.is_null e) o row h = grind (
    arith,
    λ (a : ibis.Object) (p : ibis.isnull a ≡ ok o). eval-isnull a row p,
    λ (a : ibis.Object) (p : try_from debug ibis e ≡ ok a). try_from-in_lists_negated e a row p,
  )
  try_from-in_lists_negated (Expr.between e negated low high) o row h = grind (
    arith,
    λ (a b c : ibis.Object) (p : ibis_between debug ibis negated a b c ≡ ok o).
        ibis_between-eval negated a b c o row p,
    λ (a : ibis.Object) (p : try_from debug ibis e ≡ ok a). try_from-in_lists_negated e a row p,
    λ (a : ibis.Object) (p : try_from debug ibis low ≡ ok a). try_from-in_lists_negated low a row p,
    λ (a : ibis.Object) (p : try_from debug ibis high ≡ ok a).
        try_from-in_lists_negated high a row p,
  )
  try_from-in_lists_negated (Expr.in_list e es negated) o row h = grind (
    arith,
    λ (a : ibis.Object) (vs : List ScalarValue) (p : extract_scalar_list debug es ≡ ok vs)
          (q : ibis_in_list debug ibis negated a vs ≡ ok o)
          (r : eval a row ≡ meaning engine (in_lists_negated e) row).
        in_list-eval negated (in_lists_negated e) es a o vs row p q r,
    λ (a : ibis.Object) (p : try_from debug ibis e ≡ ok a). try_from-in_lists_negated e a row p,
  )
  try_from-in_lists_negated _ o row h = ground arith

abbrev pub HasNoInList : Expr → Type 0
HasNoInList (Expr.binary_expr l op r) = HasNoInList l × HasNoInList r
HasNoInList (Expr.not e) = HasNoInList e
HasNoInList (Expr.is_not_null e) = HasNoInList e
HasNoInList (Expr.is_null e) = HasNoInList e
HasNoInList (Expr.between e negated low high) = HasNoInList e × HasNoInList low × HasNoInList high
HasNoInList (Expr.in_list e es negated) = ⊥
HasNoInList e = Unit {0}

in_lists_negated-id : (e : Expr) → HasNoInList e → in_lists_negated e ≡ e
in_lists_negated-id (Expr.binary_expr l op r) n =
    rw (in_lists_negated-id l n.0, in_lists_negated-id r n.1)
in_lists_negated-id (Expr.not e) n = rw (in_lists_negated-id e n)
in_lists_negated-id (Expr.is_not_null e) n = rw (in_lists_negated-id e n)
in_lists_negated-id (Expr.is_null e) n = rw (in_lists_negated-id e n)
in_lists_negated-id (Expr.between e negated low high) n =
    rw (in_lists_negated-id e n.0, in_lists_negated-id low n.1, in_lists_negated-id high n.2)
in_lists_negated-id (Expr.in_list e es negated) n = elim n [ ]
in_lists_negated-id _ n = ground arith

module _ (engine : Engine) (debug : Debug) (ibis : Ibis) (laws : Evaluates engine ibis) where
  -- A filter without IN lists that is translated evaluates on a row to what it means, if the
  -- expressions of ibis evaluate as documented.
  pub try_from-meaning_no_in_list :
      (e : Expr) (o : ibis.Object) (row : engine.Row)
      → HasNoInList e
      → try_from debug ibis e ≡ ok o
      → laws.eval o row ≡ meaning engine e row
  try_from-meaning_no_in_list e o row n h =
      try_from-in_lists_negated engine debug ibis laws e o row h
      ∙ ap (λ x. meaning engine x row) (in_lists_negated-id e n)

  -- The expression of ibis for an IN or NOT IN list evaluates on a row to the negation of what the
  -- list means, if the tested expression holds no IN list itself and the expressions of ibis
  -- evaluate as documented.
  pub try_from_in_list-inverted :
      (e : Expr) (es : Exprs) (negated : Bool) (o : ibis.Object) (row : engine.Row)
      → HasNoInList e
      → try_from debug ibis (Expr.in_list e es negated) ≡ ok o
      → laws.eval o row ≡ engine.invert (meaning engine (Expr.in_list e es negated) row)
  unfolding meaning
  try_from_in_list-inverted e es negated o row n h = grind (
    arith,
    try_from-in_lists_negated engine debug ibis laws (Expr.in_list e es negated) o row h,
    in_lists_negated-id e n,
    engine.invert_invert (among engine (meaning engine e row) (literals es)),
  )
