-- ===== src/Arrow.antt =====
-- The parts of Arrow's data model that the crate reads: fields, schemas and record batches. The
-- data types themselves are Arrow's, so they are a parameter with the two operations the crate
-- uses.
use xorq_datafusion.Common.{ℕ, ◌≡◌, ◌↔◌, Bool, true, List, String}

-- `==` and `{}` on `arrow::datatypes::DataType`.
pub record IsDataType (T : Type 0) : Type 0 where
  pub beq : T → T → Bool
  pub display : T → String
  pub beq_iff : (a b : T) → (beq a b ≡ true) ↔ (a ≡ b)

pub record Field (T : Type 0) : Type 0 where
  pub name : String
  pub data_type : T
  pub nullable : Bool

-- `SchemaRef` is shared: two references may point to one allocation, known by its address.
pub record SchemaRef (T : Type 0) : Type 0 where
  pub address : ℕ
  pub fields : List (Field T)

-- Of a batch the bridge reads its schema only; `rows` stands for its columns.
pub record RecordBatch (T : Type 0) : Type 0 where
  pub schema_ref : SchemaRef T
  pub rows : ℕ
