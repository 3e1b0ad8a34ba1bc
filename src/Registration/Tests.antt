-- ===== src/Registration/Tests.antt =====
-- A session whose tables are the sort expressions that they declare and the paths that they list.
use text.Mathlib.Text.{◌==◌ as str_eq}
use text.Mathlib.TextPositions.{eq_refl}
use xorq_datafusion.Common.{
  ℕ, ◌≡◌, refl, inl, not, ◌==◌, true, false, Option, none, some, List, [], ◌∷◌, map, String, arith,
  if◌then◌else◌, Result, ok, err, Error, execution_error, value_error,
}
use xorq_datafusion.Arrow.{Field}
use xorq_datafusion.DataType.Types.{DataType}
use xorq_datafusion.Expr.Types.{Expr}
use xorq_datafusion.ObjectStorage.Options.{AwsOptions, GcpOptions}
use xorq_datafusion.ObjectStorage.Samples.{bucket, stores, nothing}
use xorq_datafusion.ObjectStorage.Sessions.{Sessions}
use xorq_datafusion.Registration.Catalogs.{SortExpr, Catalogs, StreamingTables, Outcome, map_err}
use xorq_datafusion.Registration.Reader.{
  register_record_batch_reader, provider, ordered, column_name, has_column, try_new, registered,
}
use xorq_datafusion.Registration.Reader.Ordering.{Declares, register_record_batch_reader-Outcome}
use xorq_datafusion.Registration.Provider.{
  PyProviders, Imported, register_py_table_provider, imported, import_ffi_table_provider, ok_or,
  called, checked_version, registered_import,
}
use xorq_datafusion.Registration.Provider.Checks.{Imports, register_py_table_provider-Outcome}
use xorq_datafusion.Registration.Files.{
  ListingTableUrl, Listings, register_parquet, delimiter_byte, parse_file_compression_type,
  csv_arguments,
}
use xorq_datafusion.Registration.Files.Parquet.{ListsFiles, register_parquet-Outcome}

abbrev Table : Type 0
Table = List SortExpr × List ListingTableUrl

record Held : Type 0 where
  tables : String → Option Table
  aws : Option AwsOptions
  gcp : Option GcpOptions
  last : Result (List String)

abbrev sessions : Sessions (List String)
sessions = record {
  Session = Held;
  TableOptions = Option AwsOptions × Option GcpOptions;
  parse_location = λ s. ok bucket;
  register_aws = λ o s. record s { aws = some o };
  register_gcp = λ o s. record s { gcp = some o };
  default_table_options = λ s. (s.aws, s.gcp);
  set_config_format = λ f t. t;
  alter_with_string_hash_map = λ o t. ok t;
  aws = λ t. t.0;
  gcp = λ t. t.1;
  register_object_store = λ u x s. record s { last = ok x };
  get_store = λ s u. s.last;
  object_path = λ u. ok "a.parquet";
  head = λ x p. err (execution_error "no object");
  aws-register_aws = λ o s. refl;
  gcp-register_gcp = λ o s. refl;
  get_store-register_aws = λ o s u. refl;
  get_store-register_gcp = λ o s u. refl;
  get_store-register_object_store = λ u x s. refl;
}

abbrev empty : Held
empty = record { tables = λ n. none; aws = none; gcp = none; last = err (execution_error "none") }

abbrev put : String → Table → Held → Held
put name t s = record s { tables = λ n. if str_eq n name then some t else s.tables n }

put-same : (name : String) (t : Table) (s : Held) → (put name t s).tables name ≡ some t
put-same name t s = ground (arith, eq_refl name)

abbrev catalogs : Catalogs Held Table
catalogs = record {
  get_table = λ s n. s.tables n;
  register_table = λ name t s. (put name t s, ok tt);
  get_table-register_table = λ name t s h. put-same name t s;
  register_table-err = λ name t s e h other. absurd (ground arith);
}

abbrev field : String → Field ℕ
field name = record { name = name; data_type = 0; nullable = true }

abbrev streaming : StreamingTables ℕ Table ℕ
streaming = record {
  reader_schema = λ object. ok (record { address = object; fields = field "a" ∷ field "b" ∷ [] });
  streaming_table = λ schema object. ok ([], []);
  with_sort_order = λ ordering t. (ordering, t.1);
  sort_order = λ t. t.0;
  sort_order-with_sort_order = λ ordering t. refl;
}

abbrev by : String → SortExpr
by name = record { expr = Expr.column none name; asc = true; nulls_first = false }

abbrev sorts : Option (List SortExpr)
sorts = some (by "b" ∷ by "missing" ∷ by "a" ∷ [])

abbrev debug : Expr → String
debug e = "expr"

abbrev same : Error → Error
same e = e

register_record_batch_reader-Outcome_example :
    let done = register_record_batch_reader debug same catalogs streaming "t" 3 sorts empty in
    Outcome catalogs (Declares debug same catalogs streaming 3 sorts) "t" empty done.0 done.1
register_record_batch_reader-Outcome_example =
    register_record_batch_reader-Outcome debug same catalogs streaming "t" 3 sorts empty

abbrev listings : Listings Held Table
listings = record {
  ReadOptions = List (String × DataType);
  Schema = ℕ;
  to_urls = λ ps. ok (map (λ p. record { as_str = p; is_collection = false }) ps);
  file_extension = λ options s. ".parquet";
  get_resolved_schema = λ options s url. ok 0;
  listing_table = λ urls options schema. ok ([], urls);
}

abbrev shown : Error → String
shown e = "error"

abbrev files : List String
files = "s3://data/a.parquet" ∷ "s3://data/b.parquet" ∷ []

abbrev cols : List (String × String)
cols = ("day", "string") ∷ []

register_parquet-Outcome_example :
    let done =
      register_parquet stores sessions nothing shown catalogs listings files "t"
        (ok files)
        cols
        (λ cs. cs)
        []
        empty in
    Outcome catalogs
      (ListsFiles stores sessions nothing shown catalogs listings
        (λ o s n. refl)
        (λ o s n. refl)
        (λ u x s n. refl)
        files
        "t"
        (ok files)
        cols
        (λ cs. cs)
        []
        empty)
      "t"
      empty
      done.0
      done.1
register_parquet-Outcome_example =
    register_parquet-Outcome stores sessions nothing shown catalogs listings (λ o s n. refl)
      (λ o s n. refl) (λ u x s n. refl) files "t" (ok files) cols (λ cs. cs) [] empty

-- CSV files are read as the parquet files above, and "gzip" is the one compression.
abbrev named_compression : String → Result ℕ
named_compression name = if str_eq name "gzip" then ok 1 else err (execution_error "no compression")

semicolon : csv_arguments named_compression (ok files) ";" (some "gzip") ≡ ok (files, (b';', 1))
unfolding csv_arguments delimiter_byte parse_file_compression_type map_err
semicolon = refl

accented :
    csv_arguments named_compression (ok files) "é" (some "gzip")
    ≡ err (value_error "Delimiter must be a single character")
unfolding csv_arguments delimiter_byte parse_file_compression_type map_err
accented = refl

-- Providers are numbers: 0 is one of Python, 1 has a capsule of version 54.
abbrev providers : PyProviders ℕ
providers = record {
  Object = ℕ;
  Capsule = ℕ;
  Pointer = ℕ;
  Ffi = ℕ;
  hasattr = λ o n. ok (not (o == 0));
  call = λ o. inl o;
  as_capsule = λ o. some o;
  capsule_pointer = λ c n. if str_eq n "datafusion_table_provider" then some c else none;
  deref = λ p. p;
  version = λ f. 54;
  schema = λ o. ok (record { address = 0; fields = [] });
  show_version = λ v. "54";
}

abbrev as_table : Imported ℕ ℕ ℕ → Table
as_table i = ([], [])

register_py_table_provider-Outcome_example :
    let done =
      register_py_table_provider providers 54 (some tt) catalogs same as_table "t" 1 empty in
    Outcome catalogs
      (Imports providers 54 (some tt) catalogs same as_table 1)
      "t"
      empty
      done.0
      done.1
register_py_table_provider-Outcome_example =
    register_py_table_provider-Outcome providers 54 (some tt) catalogs same as_table "t" 1 empty

declared : (register_record_batch_reader debug same catalogs streaming "t" 3 sorts empty).1 ≡ ok tt
unfolding register_record_batch_reader provider ordered column_name has_column try_new map_err
    registered
declared = refl

imports :
    (register_py_table_provider providers 54 (some tt) catalogs same as_table "t" 1 empty).1 ≡ ok tt
unfolding register_py_table_provider imported import_ffi_table_provider map_err ok_or called
    checked_version registered_import
imports = refl

outdated :
    (register_py_table_provider providers 53 (some tt) catalogs same as_table "t" 1 empty).1
    ≡ err (
        value_error
          "table provider was built against DataFusion 54, but xorq-datafusion uses DataFusion 54")
unfolding register_py_table_provider imported import_ffi_table_provider map_err ok_or called
    checked_version registered_import
outdated = refl
