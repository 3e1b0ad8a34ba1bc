-- ===== src/Registration/Batches.antt =====
-- context.rs: `register_record_batches`. `mem_table` is `MemTable::try_new`, and `convert` is
-- `from_datafusion_error`.
use xorq_datafusion.Common.{◌≡◌, refl, List, [], ◌∷◌, String, Result, ok, err, Error, panicked}
use xorq_datafusion.Registration.Catalogs.{Catalogs, map_err, Outcome, registered-Outcome}

module _ {Session Table Batch Schema : Type 0} (catalogs : Catalogs Session Table)
    (convert : Error → Error) (schema_of : Batch → Schema)
    (mem_table : Schema → List (List Batch) → Result Table) where
  open catalogs use {register_table}

  -- `partitions[0][0].schema()`, which panics where there is no such batch.
  unfoldable pub first_schema : List (List Batch) → Result Schema
  first_schema [] = err (panicked "index out of bounds: the len is 0 but the index is 0")
  first_schema ([] ∷ partitions) =
      err (panicked "index out of bounds: the len is 0 but the index is 0")
  first_schema ((batch ∷ batches) ∷ partitions) = ok (schema_of batch)

  register_made : String → Result Table → Session → Session × Result (Unit {0})
  register_made name (err e) s = (s, map_err convert (err e))
  register_made name (ok t) s = let (s', r) = register_table name t s in (s', map_err convert r)

  register_with : String → List (List Batch) → Result Schema → Session → Session × Result (Unit {0})
  unfolding register_made
  register_with name partitions (err e) s = (s, err e)
  register_with name partitions (ok schema) s = register_made name (mem_table schema partitions) s

  unfoldable pub register_record_batches :
      String → List (List Batch) → Session → Session × Result (Unit {0})
  unfolding first_schema register_with
  register_record_batches name partitions s =
      register_with name partitions (first_schema partitions) s

  -- The table in memory of the partitions, by the schema of the first batch.
  abbrev pub Holds : List (List Batch) → Table → Type 0
  Holds partitions t =
      (schema : Schema) × (first_schema partitions ≡ ok schema)
      × (mem_table schema partitions ≡ ok t)

  module _ (name : String) (partitions : List (List Batch)) (s : Session) where
    made-Outcome :
        (schema : Schema)
        → first_schema partitions ≡ ok schema
        → (made : Result Table) → mem_table schema partitions ≡ made
        → let (s', r) = register_made name made s in Outcome catalogs (Holds partitions) name s s' r
    unfolding register_made map_err
    made-Outcome schema first (err e) h = λ other. refl
    made-Outcome schema first (ok t) h =
        registered-Outcome catalogs (Holds partitions) name s convert t (schema, first, h)

    with-Outcome :
        (first : Result Schema)
        → first_schema partitions ≡ first
        → let (s', r) = register_with name partitions first s in
          Outcome catalogs (Holds partitions) name s s' r
    unfolding register_with
    with-Outcome (err e) h = λ other. refl
    with-Outcome (ok schema) h = made-Outcome schema h (mem_table schema partitions) refl

    -- If registering batches succeeds, the name stands for the table of the partitions with the
    -- schema of the first batch; if it fails or panics, every table is as it was.
    pub register_record_batches-Outcome :
        let (s', r) = register_record_batches name partitions s in
        Outcome catalogs (Holds partitions) name s s' r
    unfolding register_record_batches
    register_record_batches-Outcome = with-Outcome (first_schema partitions) refl
