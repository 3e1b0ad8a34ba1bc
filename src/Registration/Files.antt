-- ===== src/Registration/Files.antt =====
-- context.rs: `register_parquet` and `register_csv`, with the stores of their locations, and
-- `_register_types`.
pub mod Checked
pub mod Stored
pub mod Parquet
pub mod Csv
use Prim.Native.Char.{code, len_utf8}
use Prim.Native.String.{String, ◌++◌ as append}
use text.Mathlib.Text.{◌==◌ as str_eq}
use xorq_datafusion.Common.{
  ℕ, ◌==◌, ◌≡◌, Bool, true, false, not, ◌&&◌, Option, none, some, List, [], ◌∷◌, if◌then◌else◌,
  ends_with, Result, ok, err, Error, execution_error, value_error, traverse, ◌>>=◌,
}
use xorq_datafusion.DataType.Types.{DataType}
use xorq_datafusion.ObjectStorage.Options.{AwsOptions, GcpOptions}
use xorq_datafusion.ObjectStorage.Stores.{Url, SdkConfig, ObjectStores}
use xorq_datafusion.ObjectStorage.Sessions.{ConfigFileType, parquet, csv, Sessions}
use xorq_datafusion.ObjectStorage.Register.{register_object_store_and_config_extensions}
use xorq_datafusion.Registration.Catalogs.{Catalogs, map_err}

-- `ListingTableUrl`
pub record ListingTableUrl : Type 0 where
  pub as_str : String
  pub is_collection : Bool

-- How files are read, and the table that lists them. `file_extension` is that of the listing
-- options.
pub record Listings (Session Table : Type 0) : Type 1 where
  pub ReadOptions : Type 0
  pub Schema : Type 0
  pub to_urls : List String → Result (List ListingTableUrl)
  pub file_extension : ReadOptions → Session → String
  pub get_resolved_schema : ReadOptions → Session → ListingTableUrl → Result Schema
  pub listing_table : List ListingTableUrl → ReadOptions → Schema → Result Table

unfoldable pub partition_column : String × String → Result (String × DataType)
partition_column (name, ty) =
    if str_eq ty "string"
    then ok (name, DataType.utf8)
    else err (value_error (append "Unsupported data type '" (append ty "' for partition column")))

unfoldable pub convert_table_partition_cols :
    List (String × String) → Result (List (String × DataType))
unfolding partition_column
convert_table_partition_cols = traverse partition_column

-- The path is a folder, or it has the extension.
unfoldable pub matches : String → ListingTableUrl → Bool
matches extension path = not (not (ends_with path.as_str extension) && not path.is_collection)

-- The loop over the paths.
unfoldable pub check_extensions : String → List ListingTableUrl → Result (Unit {0})
unfolding matches
check_extensions extension [] = ok tt
check_extensions extension (path ∷ paths) =
    if matches extension path
    then check_extensions extension paths
    else err (
        execution_error (
          append "File path '" (
            append path.as_str
              (append "' does not match the expected extension '" (append extension "'")))))

-- The arguments that Python passes as lists.
unfoldable pub read_arguments :
    Result (List String) → List (String × String) → Result (List String × List (String × DataType))
unfolding convert_table_partition_cols
read_arguments paths cols = do ps ← paths; cs ← convert_table_partition_cols cols; ok (ps, cs)

-- `unwrap_or`
abbrev unwrap_or : String → Option String → String
unwrap_or other none = other
unwrap_or other (some s) = s

-- The one byte of a delimiter.
unfoldable pub delimiter_byte : String → Result ℕ
delimiter_byte (String.◌∷◌ c String.[]) =
    if len_utf8 c == 1
    then ok (code c)
    else err (value_error "Delimiter must be a single character")
delimiter_byte _ = err (value_error "Delimiter must be a single character")

module _ {Compression : Type 0} (from_str : String → Result Compression) where
  unfoldable pub parse_file_compression_type : Option String → Result Compression
  unfolding map_err
  parse_file_compression_type name =
      map_err (λ e. value_error "file_compression_type must one of: gzip, bz2, xz, zstd")
        (from_str (unwrap_or "" name))

  unfoldable pub csv_arguments :
      Result (List String) → String → Option String → Result (List String × (ℕ × Compression))
  csv_arguments paths delimiter compression = do
    ps ← paths
    byte ← delimiter_byte delimiter
    kind ← parse_file_compression_type compression
    ok (ps, (byte, kind))

module _ {Session Table : Type 0} (catalogs : Catalogs Session Table)
    (listings : Listings Session Table) where
  open catalogs use {register_table}
  open listings use {ReadOptions, to_urls, file_extension, get_resolved_schema, listing_table}

  -- The table of paths, of which the first says the schema.
  table_of : ReadOptions → Session → List ListingTableUrl → Result Table
  unfolding check_extensions
  table_of options s [] = err (execution_error "No table paths were provided")
  table_of options s (first ∷ paths) = do
    checked ← check_extensions (file_extension options s) (first ∷ paths)
    schema ← get_resolved_schema options s first
    listing_table (first ∷ paths) options schema

  listed : String → Result Table → Session → Session × Result (Unit {0})
  listed name (err e) s = (s, err e)
  listed name (ok t) s = register_table name t s

  pub register_types : String → List String → ReadOptions → Session → Session × Result (Unit {0})
  unfolding table_of listed
  register_types name table_paths options s =
      listed name (to_urls table_paths >>= table_of options s) s

module _ {Table : Type 0} (os : ObjectStores) (sessions : Sessions os.Store)
    (config : SdkConfig os.Provider) (display : Error → String)
    (catalogs : Catalogs sessions.Session Table) (listings : Listings sessions.Session Table) where
  open sessions use {Session}
  open listings use {ReadOptions}

  -- `JoinSet::join_all`: each location is registered, in the order in which the tasks come to run,
  -- and what that came to is dropped.
  pub register_stores : ConfigFileType → List String → List (String × String) → Session → Session
  register_stores format [] storage_options s = s
  register_stores format (path ∷ paths) storage_options s =
      register_stores format paths storage_options
        (register_object_store_and_config_extensions os sessions config display path (some format)
          storage_options s).0

  register_files :
      ConfigFileType
      → (tasks : List String) → String
      → List String
      → ReadOptions
      → List (String × String)
      → Session
      → Session × Result (Unit {0})
  unfolding register_stores map_err
  register_files format tasks name paths options storage_options s =
      let (s', r) =
        register_types catalogs listings name paths options
          (register_stores format tasks storage_options s) in
      (s', map_err (λ e. value_error (display e)) r)

  -- Arguments that could not be read are an error before anything is registered.
  pub with_arguments :
      {Given : Type 0}
      → ConfigFileType
      → (tasks : List String) → String
      → (Given → ReadOptions)
      → List (String × String)
      → Session
      → Result (List String × Given)
      → Session × Result (Unit {0})
  unfolding register_files
  with_arguments format tasks name read_options storage_options s (err e) = (s, err e)
  with_arguments format tasks name read_options storage_options s (ok (ps, given)) =
      register_files format tasks name ps (read_options given) storage_options s

  -- `tasks` are the paths in the order in which their tasks come to run, and `read_options` puts
  -- the partition columns among the other options.
  pub register_parquet :
      (tasks : List String)
      → (name : String) → (paths : Result (List String))
      → (table_partition_cols : List (String × String))
      → (read_options : List (String × DataType) → ReadOptions)
      → (storage_options : List (String × String)) → Session
      → Session × Result (Unit {0})
  unfolding read_arguments with_arguments
  register_parquet tasks name paths cols read_options storage_options s =
      with_arguments parquet tasks name read_options storage_options s (read_arguments paths cols)

  -- `read_options` puts the delimiter's byte and the compression among the other options, and
  -- `from_str` names a compression.
  module _ {Compression : Type 0} (from_str : String → Result Compression) where
    pub register_csv :
        (tasks : List String)
        → (name : String) → (paths : Result (List String)) → (delimiter : String)
        → (file_compression_type : Option String) → (read_options : ℕ × Compression → ReadOptions)
        → (storage_options : List (String × String)) → Session
        → Session × Result (Unit {0})
    unfolding csv_arguments with_arguments
    register_csv tasks name paths delimiter compression read_options storage_options s =
        with_arguments csv tasks name read_options storage_options s
          (csv_arguments from_str paths delimiter compression)
