-- ===== src/Filter/Pushdown.antt =====
-- supports_filters_pushdown of dataset.rs and ibis_table.rs, and the filters that `scan` of
-- ibis_table.rs hands to `Table.filter`.
use xorq_datafusion.Common.{◌≡◌, List, [], ◌∷◌, arith, Result, ok, err, traverse, IsOk, unwrap}
use xorq_datafusion.Expr.Types.{Expr}
use xorq_datafusion.Filter.Python.{Debug}
use xorq_datafusion.Filter.PyArrow.{PyArrow}
use xorq_datafusion.Filter.PyArrow as PyArrowFilter
use xorq_datafusion.Filter.Ibis.{Ibis}
use xorq_datafusion.Filter.Ibis as IbisFilter

pub data TableProviderFilterPushDown : Type 0 where
  exact inexact unsupported : TableProviderFilterPushDown

-- `match try_from(f) { Ok(_) => Exact, _ => Unsupported }`
abbrev pub answer : {A : Type 0} → Result A → TableProviderFilterPushDown
answer (ok a) = exact
answer (err e) = unsupported

module _ (debug : Debug) (pc : PyArrow) where
  pub dataset_supports_filters_pushdown : List Expr → Result (List TableProviderFilterPushDown)
  dataset_supports_filters_pushdown = traverse λ f. ok (answer (PyArrowFilter.try_from debug pc f))

module _ (debug : Debug) (ibis : Ibis) where
  unfoldable pub ibis_supports_filters_pushdown :
      List Expr → Result (List TableProviderFilterPushDown)
  ibis_supports_filters_pushdown = traverse λ f. ok (answer (IbisFilter.try_from debug ibis f))

  -- The arguments that `scan` collects, each by `try_from(filter).unwrap()`.
  unfoldable pub scan_filters : List Expr → Result (List ibis.Object)
  scan_filters = traverse λ f. unwrap (IbisFilter.try_from debug ibis f)

  -- Every filter is answered with `Exact`.
  abbrev pub AllExact : List TableProviderFilterPushDown → Type 0
  AllExact [] = Unit {0}
  AllExact (exact ∷ answers) = AllExact answers
  AllExact (_ ∷ answers) = ⊥

  -- Filters that are all answered with `Exact` are all translated by `scan`, whose `unwrap` then
  -- does not panic.
  pub scan_filters-IsOk :
      (fs : List Expr) (answers : List TableProviderFilterPushDown)
      → ibis_supports_filters_pushdown fs ≡ ok answers
      → AllExact answers
      → IsOk (scan_filters fs)
  unfolding ibis_supports_filters_pushdown scan_filters
  scan_filters-IsOk [] answers h x = ground arith
  scan_filters-IsOk (f ∷ fs) answers h x = grind (arith, scan_filters-IsOk fs)
