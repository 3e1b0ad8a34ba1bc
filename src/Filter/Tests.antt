-- ===== src/Filter/Tests.antt =====
-- The theorems on pushed-down filters, over a table of one Boolean column: a row is the column's
-- value, and an expression of the Python libraries is its function of the row.
use xorq_datafusion.Common.{◌≡◌, refl, Bool, true, false, not, none, some, [], ◌∷◌, ok}
use xorq_datafusion.DataType.Types.{ScalarValue}
use xorq_datafusion.Expr.Types.{Expr, nil, cons, and}
use xorq_datafusion.Filter.Python.{
  operator_to_py, meant, among, within, meaning, extract_scalar_list,
}
use xorq_datafusion.Filter.Samples.{
  Kleene, negate, both, implies, combine, is_none, value, kleene, debug, pc, of_ok, pc_laws,
}
use xorq_datafusion.Filter.PyArrow.{PyArrow, TestsNoNull, try_from-meaning}
use xorq_datafusion.Filter.PyArrow as PyArrowFilter
use xorq_datafusion.Filter.Ibis.{Ibis}
use xorq_datafusion.Filter.Ibis as IbisFilter
use xorq_datafusion.Filter.Ibis.Meaning.{in_lists_negated, try_from-in_lists_negated}

abbrev ibis : Ibis
ibis = record {
  Object = Bool → Kleene;
  getattr = λ name. ok some;
  literal = λ v. ok (λ row. value v);
  call = λ f a b. ok (λ row. combine (meant f) (a row) (b row));
  invert = λ a. ok (λ row. negate (a row));
  notnull = λ a. ok (λ row. some (not (is_none (a row))));
  isnull = λ a. ok (λ row. some (is_none (a row)));
  isin = λ a vs. ok (λ row. among kleene (a row) vs);
  notin = λ a vs. ok (λ row. negate (among kleene (a row) vs));
  between = λ a low high. ok (λ row. within kleene (a row) (low row) (high row));
}

abbrev ibis_laws : IbisFilter.Evaluates kleene ibis
ibis_laws = record {
  eval = λ o row. o row;
  eval-getattr = λ n row h. of_ok row h;
  eval-literal = λ v row h. of_ok row h;
  eval-call = λ f a b row h. of_ok row h;
  eval-invert = λ a row h. of_ok row h;
  eval-notnull = λ a row h. of_ok row h;
  eval-isnull = λ a row h. of_ok row h;
  eval-isin = λ a vs row h. of_ok row h;
  eval-notin = λ a vs row h. of_ok row h;
  eval-between = λ a low high row h. of_ok row h;
}

abbrev flag : Expr
flag = Expr.column none "flag"

abbrev literal' : Bool → Expr
literal' b = Expr.literal (ScalarValue.boolean (some b))

-- `flag NOT IN (true)`
abbrev listed : Expr
listed = Expr.in_list flag (cons (literal' true) nil) true

-- `flag NOT BETWEEN false AND false`
abbrev ranged : Expr
ranged = Expr.between flag true (literal' false) (literal' false)

abbrev among_true : Bool → Kleene
among_true row = among kleene (some row) (ScalarValue.boolean (some true) ∷ [])

abbrev in_range : Bool → Kleene
in_range row = within kleene (some row) (some false) (some false)

try_from-meaning_example :
    both (negate (in_range true)) (negate (among_true true))
    ≡ meaning kleene (Expr.binary_expr ranged and listed) true
unfolding PyArrowFilter.try_from PyArrowFilter.py_between PyArrowFilter.py_in_list operator_to_py
    extract_scalar_list meaning
try_from-meaning_example =
    try_from-meaning kleene debug pc pc_laws (Expr.binary_expr ranged and listed)
      (λ row.
        both (negate (both (implies (some false) (some row)) (implies (some row) (some false))))
          (negate (among_true row)))
      true refl ((tt, tt, tt), (tt, refl))

try_from-in_lists_negated_example : among_true true ≡ meaning kleene (in_lists_negated listed) true
unfolding IbisFilter.try_from IbisFilter.ibis_in_list extract_scalar_list
try_from-in_lists_negated_example =
    try_from-in_lists_negated kleene debug ibis ibis_laws listed among_true true refl
