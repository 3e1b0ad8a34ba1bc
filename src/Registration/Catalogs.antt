-- ===== src/Registration/Catalogs.antt =====
-- What the registrations of context.rs use of DataFusion: the tables of a session and the stream
-- table that py_record_batch_provider.rs wraps.
use xorq_datafusion.Common.{
  ◌≡◌, refl, ◌∙◌, Bool, Option, some, List, String, Result, ok, err, Error,
}
use xorq_datafusion.Arrow.{SchemaRef}
use xorq_datafusion.Expr.Types.{Expr}

-- `SortExpr`
pub record SortExpr : Type 0 where
  pub expr : Expr
  pub asc : Bool
  pub nulls_first : Bool

-- The tables of a session. A table that is registered is found by its name, and a registration
-- that fails changes none.
pub record Catalogs (Session Table : Type 0) : Type 0 where
  pub get_table : Session → String → Option Table
  pub register_table : String → Table → Session → Session × Result (Unit {0})
  pub get_table-register_table :
      (name : String) (t : Table) (s : Session)
      → (register_table name t s).1 ≡ ok tt
      → get_table (register_table name t s).0 name ≡ some t
  pub register_table-err :
      (name : String) (t : Table) (s : Session) (e : Error)
      → (register_table name t s).1 ≡ err e
      → (other : String) → get_table (register_table name t s).0 other ≡ get_table s other

-- `map_err(..)`
unfoldable pub map_err : {A : Type 0} → (Error → Error) → Result A → Result A
map_err f (ok a) = ok a
map_err f (err e) = err (f e)

-- A registration that succeeds leaves a table with a property under its name, and one that fails
-- leaves every table as it was.
module _ {Session Table : Type 0} (catalogs : Catalogs Session Table) (IsWanted : Table → Type 0)
    (name : String) (before : Session) where
  open catalogs use {get_table, register_table, get_table-register_table, register_table-err}

  abbrev pub Outcome : Session → Result (Unit {0}) → Type 0
  Outcome after (ok _) = (t : Table) × (get_table after name ≡ some t) × IsWanted t
  Outcome after (err e) = (other : String) → get_table after other ≡ get_table before other

  pub register_table-Outcome :
      (t : Table)
      → IsWanted t
      → (r : Result (Unit {0})) → (register_table name t before).1 ≡ r
      → Outcome (register_table name t before).0 r
  register_table-Outcome t wanted (ok tt) h = (t, get_table-register_table name t before h, wanted)
  register_table-Outcome t wanted (err e) h = register_table-err name t before e h

  pub map_err-Outcome :
      (f : Error → Error) (after : Session) (r : Result (Unit {0}))
      → Outcome after r
      → Outcome after (map_err f r)
  unfolding map_err
  map_err-Outcome f after (ok tt) h = h
  map_err-Outcome f after (err e) h = h

  -- A registration of a table whose error is passed on.
  pub registered-Outcome :
      (f : Error → Error) (t : Table)
      → IsWanted t
      → Outcome (register_table name t before).0 (map_err f (register_table name t before).1)
  registered-Outcome f t wanted =
      map_err-Outcome f (register_table name t before).0 (register_table name t before).1
        (register_table-Outcome t wanted (register_table name t before).1 refl)

-- The tables before a registration are those of an earlier session.
pub Outcome-earlier :
    {Session Table : Type 0} (catalogs : Catalogs Session Table) (IsWanted : Table → Type 0)
    (name : String) (earlier before after : Session) (r : Result (Unit {0}))
    → ((other : String) → catalogs.get_table before other ≡ catalogs.get_table earlier other)
    → Outcome catalogs IsWanted name before after r
    → Outcome catalogs IsWanted name earlier after r
Outcome-earlier catalogs IsWanted name earlier before after (ok tt) h o = o
Outcome-earlier catalogs IsWanted name earlier before after (err e) h o = λ other. o other ∙ h other

pub Outcome-weaker :
    {Session Table : Type 0} (catalogs : Catalogs Session Table) (IsWanted IsGiven : Table → Type 0)
    (name : String) (before after : Session) (r : Result (Unit {0}))
    → ((t : Table) → IsGiven t → IsWanted t)
    → Outcome catalogs IsGiven name before after r
    → Outcome catalogs IsWanted name before after r
Outcome-weaker catalogs IsWanted IsGiven name before after (ok tt) h (t, e, given) =
    (t, e, h t given)
Outcome-weaker catalogs IsWanted IsGiven name before after (err e) h o = o

-- A table that is read from a Python object, with the ordering that it declares.
pub record StreamingTables (T Table Object : Type 0) : Type 0 where
  pub reader_schema : Object → Result (SchemaRef T)
  pub streaming_table : SchemaRef T → Object → Result Table
  pub with_sort_order : List SortExpr → Table → Table
  pub sort_order : Table → List SortExpr
  pub sort_order-with_sort_order :
      (ordering : List SortExpr) (t : Table) → sort_order (with_sort_order ordering t) ≡ ordering
