-- ===== src/Registration/Reader/Ordering.antt =====
-- The ordering that a registered reader declares.
use mathlib.Core.List.{append_assoc, append-nil}
use xorq_datafusion.Common.{
  ◌≡◌, refl, true, false, Option, some, List, [], ◌∷◌, ◌++◌, String, arith, Result, ok, err, Error,
  Option-cases, Bool-cases, Result-cases, inl, inr, sym, subst, ◌∙◌, ap,
}
use xorq_datafusion.Arrow.{SchemaRef}
use xorq_datafusion.Expr.Types.{Expr}
use xorq_datafusion.Registration.Catalogs.{
  SortExpr, Catalogs, StreamingTables, map_err, Outcome, registered-Outcome,
}
use xorq_datafusion.Registration.Reader.{
  column_name, has_column, flattened, ordered, provider, try_new, registered,
  register_record_batch_reader,
}

module _ {T : Type 0} where
  -- A sort expression is a column of a schema.
  abbrev pub IsColumn : SchemaRef T → SortExpr → Type 0
  IsColumn schema sort =
      (name : String) × (column_name sort.expr ≡ some name) × (has_column name schema.fields ≡ true)

  abbrev pub AllColumns : SchemaRef T → List SortExpr → Type 0
  AllColumns schema [] = Unit {0}
  AllColumns schema (sort ∷ sorts) = IsColumn schema sort × AllColumns schema sorts

  -- The sort expressions are over, or the next one is a column that the schema does not have.
  abbrev pub Stops : SchemaRef T → List SortExpr → Type 0
  Stops schema [] = Unit {0}
  Stops schema (sort ∷ sorts) =
      (name : String) × (column_name sort.expr ≡ some name)
      × (has_column name schema.fields ≡ false)

  -- Sort expressions are split into the columns that stand first and the rest.
  abbrev pub Splits : SchemaRef T → List SortExpr → (columns : List SortExpr) → Type 0
  Splits schema sorts columns =
      (rest : List SortExpr) × (columns ++ rest ≡ sorts)
      × AllColumns schema columns
      × Stops schema rest

  module _ (debug : Expr → String) (schema : SchemaRef T) where
    ordered-Splits :
        (sorts before ordering : List SortExpr)
        → ordered debug schema before sorts ≡ ok ordering
        → (columns : List SortExpr) × (ordering ≡ before ++ columns) × Splits schema sorts columns
    unfolding ordered
    ordered-Splits [] before ordering h = ([], grind (arith, append-nil), ([], refl, tt, tt))
    ordered-Splits (sort ∷ sorts) before ordering h = elim (Option-cases (column_name sort.expr)) [
      | inl other ↦ absurd (ground arith)
      | inr (name, column) ↦ elim (Bool-cases (has_column name schema.fields)) [
        | inl there ↦
            let (columns, e, (rest, joined, all, stops)) =
              ordered-Splits sorts (before ++ sort ∷ []) ordering (ground arith) in
            (
              sort ∷ columns,
              e ∙ append_assoc before (sort ∷ []) columns,
              (rest, ap (λ xs. sort ∷ xs) joined, ((name, column, there), all), stops),
            )
        | inr missing ↦
            ([], grind (arith, append-nil), (sort ∷ sorts, refl, tt, (name, column, missing)))
      ]
    ]

module _ {T Session Table Object : Type 0} (debug : Expr → String)
    (from_datafusion_error : Error → Error) (catalogs : Catalogs Session Table)
    (streaming : StreamingTables T Table Object) where
  open catalogs use {get_table, register_table, get_table-register_table}
  open streaming use {
    reader_schema, streaming_table, with_sort_order, sort_order, sort_order-with_sort_order,
  }

  -- What a table declares of a reader: the columns of its schema that stand first among the sort
  -- expressions.
  abbrev pub Declares : Object → Option (List SortExpr) → Table → Type 0
  Declares reader sorts t =
      (schema : SchemaRef T) × (reader_schema reader ≡ ok schema)
      × Splits schema (flattened sorts) (sort_order t)

  provider-Declares :
      (reader : Object) (sorts : Option (List SortExpr)) (t : Table)
      → provider debug from_datafusion_error catalogs streaming reader sorts ≡ ok t
      → Declares reader sorts t
  unfolding provider try_new map_err
  provider-Declares reader sorts t h = elim (Result-cases (reader_schema reader)) [
    | inr (e, p) ↦ absurd (ground arith)
    | inl (schema, p) ↦ elim (Result-cases (ordered debug schema [] (flattened sorts))) [
      | inr (e, q) ↦ absurd (ground arith)
      | inl (ordering, q) ↦ elim (Result-cases (streaming_table schema reader)) [
        | inr (e, r) ↦ absurd (ground arith)
        | inl (t', r) ↦
            let (columns, e, splits) =
              ordered-Splits debug schema (flattened sorts) [] ordering q in
            let declared : sort_order t ≡ columns =
              ground (arith, sort_order-with_sort_order ordering t') in
            (schema, p, subst (λ cs. Splits schema (flattened sorts) cs) (sym declared) splits)
      ]
    ]
  ]

  made-Outcome :
      (name : String) (reader : Object) (sorts : Option (List SortExpr)) (s : Session)
      (made : Result Table)
      → provider debug from_datafusion_error catalogs streaming reader sorts ≡ made
      → let (s', r) = registered debug from_datafusion_error catalogs streaming name made s in
        Outcome catalogs (Declares reader sorts) name s s' r
  unfolding registered
  made-Outcome name reader sorts s (err e) h = λ other. refl
  made-Outcome name reader sorts s (ok t) h =
      registered-Outcome catalogs (Declares reader sorts) name s from_datafusion_error t
        (provider-Declares reader sorts t h)

  -- A reader that is registered is found under its name as a table that declares as its ordering
  -- the sort expressions before the first column that the schema does not have, all of them columns
  -- of the schema; a registration that fails leaves every table as it was.
  pub register_record_batch_reader-Outcome :
      (name : String) (reader : Object) (sorts : Option (List SortExpr)) (s : Session)
      → let (s', r) =
          register_record_batch_reader debug from_datafusion_error catalogs streaming name reader
            sorts s in
        Outcome catalogs (Declares reader sorts) name s s' r
  unfolding register_record_batch_reader registered
  register_record_batch_reader-Outcome name reader sorts s =
      made-Outcome name reader sorts s
        (provider debug from_datafusion_error catalogs streaming reader sorts) refl
