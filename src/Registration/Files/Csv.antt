-- ===== src/Registration/Files/Csv.antt =====
-- What `register_csv` leaves in the session.
use Prim.Native.Char.{Char, code, len_utf8}
use Prim.Native.String.{String, [], ◌∷◌}
use xorq_datafusion.Common.{ℕ, ◌≡◌, Option, List, Result, ok, Error}
use xorq_datafusion.ObjectStorage.Options.{AwsOptions, GcpOptions}
use xorq_datafusion.ObjectStorage.Stores.{Url, SdkConfig, ObjectStores}
use xorq_datafusion.ObjectStorage.Sessions.{csv, Sessions}
use xorq_datafusion.Registration.Catalogs.{Catalogs}
use xorq_datafusion.Registration.Files.{Listings, parse_file_compression_type, csv_arguments}
use xorq_datafusion.Registration.Files.Checked.{Lists}
use xorq_datafusion.Registration.Files.Stored.{stored, ListsRead}

-- A delimiter is one character of one byte.
abbrev pub IsByte : String → ℕ → Type 0
IsByte delimiter byte = (c : Char) × (delimiter ≡ c ∷ []) × (len_utf8 c ≡ 1) × (byte ≡ code c)

module _ {Table : Type 0} (os : ObjectStores) (sessions : Sessions os.Store)
    (config : SdkConfig os.Provider) (display : Error → String)
    (catalogs : Catalogs sessions.Session Table) (listings : Listings sessions.Session Table)
    (aws : (o : AwsOptions) (s : sessions.Session) (other : String)
      → catalogs.get_table (sessions.register_aws o s) other ≡ catalogs.get_table s other)
    (gcp : (o : GcpOptions) (s : sessions.Session) (other : String)
      → catalogs.get_table (sessions.register_gcp o s) other ≡ catalogs.get_table s other)
    (stores : (u : Url) (x : os.Store) (s : sessions.Session) (other : String)
      → catalogs.get_table (sessions.register_object_store u x s) other
        ≡ catalogs.get_table s other) where
  open sessions use {Session}
  open listings use {ReadOptions}

  module _ {Compression : Type 0} (from_str : String → Result Compression) (tasks : List String)
      (name : String) (paths : Result (List String)) (delimiter : String)
      (compression : Option String) (read_options : ℕ × Compression → ReadOptions)
      (storage_options : List (String × String)) (s : Session) where
    -- A table of files that were all read, with a delimiter of one byte and a known compression.
    abbrev pub ListsCsv : Table → Type 0
    ListsCsv t =
        (ps : List String) × (byte : ℕ) × (kind : Compression) × (paths ≡ ok ps)
        × IsByte delimiter byte
        × (parse_file_compression_type from_str compression ≡ ok kind)
        × Lists catalogs listings ps (read_options (byte, kind))
            (stored os sessions config display catalogs listings aws gcp stores csv tasks
              storage_options s)
            t

    abbrev AsRead : Table → Type 0
    AsRead =
        ListsRead os sessions config display catalogs listings aws gcp stores csv tasks name
          read_options storage_options s (csv_arguments from_str paths delimiter compression)
