-- ===== src/Registration/Files/Parquet.antt =====
-- What `register_parquet` leaves in the session.
use xorq_datafusion.Common.{
  ◌≡◌, inl, inr, List, map, String, arith, Result, ok, err, Error, Result-cases,
}
use xorq_datafusion.DataType.Types.{DataType}
use xorq_datafusion.ObjectStorage.Options.{AwsOptions, GcpOptions}
use xorq_datafusion.ObjectStorage.Stores.{Url, SdkConfig, ObjectStores}
use xorq_datafusion.ObjectStorage.Sessions.{parquet, Sessions}
use xorq_datafusion.Registration.Catalogs.{Catalogs, Outcome, Outcome-weaker}
use xorq_datafusion.Registration.Files.{
  Listings, convert_table_partition_cols, read_arguments, register_parquet,
}
use xorq_datafusion.Registration.Files.Checked.{AllStrings, convert-AllStrings, Lists}
use xorq_datafusion.Registration.Files.Stored.{stored, ListsRead, with_arguments-Outcome}

read_arguments-AllStrings :
    (paths : Result (List String)) (cols : List (String × String)) (ps : List String)
    (cs : List (String × DataType))
    → read_arguments paths cols ≡ ok (ps, cs)
    → (paths ≡ ok ps) × AllStrings cols × (cs ≡ map (λ col. (col.0, DataType.utf8)) cols)
unfolding read_arguments
read_arguments-AllStrings (err e) cols ps cs h = absurd (ground arith)
read_arguments-AllStrings (ok paths) cols ps cs h =
    elim (Result-cases (convert_table_partition_cols cols)) [
      | inr (e, p) ↦ absurd (ground arith)
      | inl (cs', p) ↦
          let (strings, e) = convert-AllStrings cols cs (ground arith) in (ground arith, strings, e)
    ]

module _ {Table : Type 0} (os : ObjectStores) (sessions : Sessions os.Store)
    (config : SdkConfig os.Provider) (display : Error → String)
    (catalogs : Catalogs sessions.Session Table) (listings : Listings sessions.Session Table)
    (aws : (o : AwsOptions) (s : sessions.Session) (other : String)
      → catalogs.get_table (sessions.register_aws o s) other ≡ catalogs.get_table s other)
    (gcp : (o : GcpOptions) (s : sessions.Session) (other : String)
      → catalogs.get_table (sessions.register_gcp o s) other ≡ catalogs.get_table s other)
    (stores : (u : Url) (x : os.Store) (s : sessions.Session) (other : String)
      → catalogs.get_table (sessions.register_object_store u x s) other
        ≡ catalogs.get_table s other) where
  open sessions use {Session}
  open listings use {ReadOptions}

  module _ (tasks : List String) (name : String) (paths : Result (List String))
      (cols : List (String × String)) (read_options : List (String × DataType) → ReadOptions)
      (storage_options : List (String × String)) (s : Session) where
    -- A table of files that were all read, with partition columns that are texts.
    abbrev pub ListsFiles : Table → Type 0
    ListsFiles t =
        (ps : List String) × (paths ≡ ok ps)
        × AllStrings cols
        × Lists catalogs listings ps (read_options (map (λ col. (col.0, DataType.utf8)) cols))
            (stored os sessions config display catalogs listings aws gcp stores parquet tasks
              storage_options s)
            t

    abbrev AsRead : Table → Type 0
    AsRead =
        ListsRead os sessions config display catalogs listings aws gcp stores parquet tasks name
          read_options storage_options s (read_arguments paths cols)

    read-ListsFiles : (t : Table) → AsRead t → ListsFiles t
    read-ListsFiles t (ps, cs, h, l) =
        let (e, strings, columns) = read_arguments-AllStrings paths cols ps cs h in
        (ps, e, strings, rw columns at l)

    -- If registering parquet files succeeds, the table that is found under the name lists at least
    -- one path, each a folder or with the extension in the end, and its partition columns are
    -- texts; if it fails, every table is as it was. This holds in whatever order the locations'
    -- stores are registered, and whatever that comes to, if extensions and stores leave the tables
    -- alone.
    pub register_parquet-Outcome :
        let (s', r) =
          register_parquet os sessions config display catalogs listings tasks name paths cols
            read_options storage_options s in
        Outcome catalogs ListsFiles name s s' r
    unfolding register_parquet
    register_parquet-Outcome =
        let (s', r) =
          register_parquet os sessions config display catalogs listings tasks name paths cols
            read_options storage_options s in
        Outcome-weaker catalogs ListsFiles AsRead name s s' r read-ListsFiles (
          with_arguments-Outcome os sessions config display catalogs listings aws gcp stores parquet
            tasks name read_options storage_options s (read_arguments paths cols))
