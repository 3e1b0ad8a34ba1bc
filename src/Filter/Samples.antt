-- ===== src/Filter/Samples.antt =====
-- An engine for tests over a table of one Boolean column: a row is the column's value, and an
-- expression of pyarrow is its function of the row.
use xorq_datafusion.Common.{◌≡◌, refl, Bool, true, false, not, ◌&&◌, Option, none, some, ok}
use xorq_datafusion.DataType.Types.{ScalarValue}
use xorq_datafusion.Expr.Types.{Operator, eq, and, or, lt_eq, gt_eq}
use xorq_datafusion.Filter.Python.{meant, Debug, Engine, among}
use xorq_datafusion.Filter.PyArrow.{PyArrow}
use xorq_datafusion.Filter.PyArrow as PyArrowFilter

abbrev pub Kleene : Type 0
Kleene = Option Bool

abbrev pub negate : Kleene → Kleene
negate none = none
negate (some b) = some (not b)

abbrev pub both : Kleene → Kleene → Kleene
both (some a) (some b) = some (a && b)
both (some false) none = some false
both none (some false) = some false
both _ _ = none

abbrev pub implies : Kleene → Kleene → Kleene
implies a b = negate (both a (negate b))

abbrev pub combine : Operator → Kleene → Kleene → Kleene
combine eq a b = both (implies a b) (implies b a)
combine and a b = both a b
combine or a b = negate (both (negate a) (negate b))
combine lt_eq a b = implies a b
combine gt_eq a b = implies b a
combine op a b = none

abbrev pub is_none : Kleene → Bool
is_none none = true
is_none (some b) = false

abbrev pub value : ScalarValue → Kleene
value (ScalarValue.boolean b) = b
value v = none

pub negate-negate : (b : Kleene) → negate (negate b) ≡ b
negate-negate none = refl
negate-negate (some true) = refl
negate-negate (some false) = refl

abbrev pub kleene : Engine
kleene = record {
  Value = Kleene;
  Row = Bool;
  column = λ name row. some row;
  constant = value;
  apply = combine;
  invert = negate;
  truth = some;
  is_null = is_none;
  other = λ e row. none;
  invert_invert = negate-negate;
  ge-le = λ a b. refl;
}

abbrev pub debug : Debug
debug = record { operator = λ o. "operator"; scalar = λ v. "scalar"; expr = λ e. "expr" }

abbrev pub pc : PyArrow
pc = record {
  Object = Bool → Kleene;
  field = λ name. ok some;
  scalar = λ v. ok (λ row. value v);
  call = λ f a b. ok (λ row. combine (meant f) (a row) (b row));
  invert = λ a. ok (λ row. negate (a row));
  is_valid = λ a. ok (λ row. some (not (is_none (a row))));
  is_null = λ a. ok (λ row. some (is_none (a row)));
  isin = λ a vs. ok (λ row. among kleene (a row) vs);
}

-- A function that was returned is the one that was made.
pub of_ok : {f g : Bool → Kleene} (row : Bool) → ok f ≡ ok g → g row ≡ f row
of_ok row h = cc

abbrev pub pc_laws : PyArrowFilter.Evaluates kleene pc
pc_laws = record {
  eval = λ o row. o row;
  eval-field = λ n row h. of_ok row h;
  eval-scalar = λ v row h. of_ok row h;
  eval-call = λ f a b row h. of_ok row h;
  eval-invert = λ a row h. of_ok row h;
  eval-is_valid = λ a row h. of_ok row h;
  eval-is_null = λ a row h. of_ok row h;
  eval-isin = λ a vs row h n. of_ok row h;
}
