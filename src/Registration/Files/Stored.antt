-- ===== src/Registration/Files/Stored.antt =====
-- What the registration of files leaves in the session, whatever the tasks that register the
-- locations come to and in whatever order they run.
use xorq_datafusion.Common.{
  ◌≡◌, refl, some, List, [], ◌∷◌, String, Result, ok, err, Error, value_error, ◌∙◌,
}
use xorq_datafusion.ObjectStorage.Options.{AwsOptions, GcpOptions}
use xorq_datafusion.ObjectStorage.Stores.{Url, SdkConfig, ObjectStores}
use xorq_datafusion.ObjectStorage.Sessions.{ConfigFileType, Sessions}
use xorq_datafusion.ObjectStorage.Register.{register_object_store_and_config_extensions}
use xorq_datafusion.ObjectStorage.Register.Outcome.{register-keeps}
use xorq_datafusion.Registration.Catalogs.{
  Catalogs, map_err, Outcome, map_err-Outcome, Outcome-earlier, Outcome-weaker,
}
use xorq_datafusion.Registration.Files.{
  Listings, register_types, register_stores, register_files, with_arguments,
}
use xorq_datafusion.Registration.Files.Checked.{Lists, register_types-Outcome}

module _ {Table : Type 0} (os : ObjectStores) (sessions : Sessions os.Store)
    (config : SdkConfig os.Provider) (display : Error → String)
    (catalogs : Catalogs sessions.Session Table) (listings : Listings sessions.Session Table)
    (aws : (o : AwsOptions) (s : sessions.Session) (other : String)
      → catalogs.get_table (sessions.register_aws o s) other ≡ catalogs.get_table s other)
    (gcp : (o : GcpOptions) (s : sessions.Session) (other : String)
      → catalogs.get_table (sessions.register_gcp o s) other ≡ catalogs.get_table s other)
    (stores : (u : Url) (x : os.Store) (s : sessions.Session) (other : String)
      → catalogs.get_table (sessions.register_object_store u x s) other
        ≡ catalogs.get_table s other) where
  open sessions use {Session}
  open catalogs use {get_table}
  open listings use {ReadOptions}

  abbrev pub stored : ConfigFileType → List String → List (String × String) → Session → Session
  stored = register_stores os sessions config display catalogs listings

  get_table-stored :
      (format : ConfigFileType) (tasks : List String) (storage_options : List (String × String))
      (s : Session) (other : String)
      → get_table (stored format tasks storage_options s) other ≡ get_table s other
  unfolding register_stores
  get_table-stored format [] storage_options s other = refl
  get_table-stored format (task ∷ tasks) storage_options s other =
      get_table-stored format tasks storage_options
        (register_object_store_and_config_extensions os sessions config display task (some format)
          storage_options s).0
        other
      ∙ register-keeps os sessions config display (λ s. get_table s other) (λ o s. aws o s other)
          (λ o s. gcp o s other) (λ u x s. stores u x s other) task (some format) storage_options s

  module _ {Given : Type 0} (format : ConfigFileType) (tasks : List String) (name : String)
      (read_options : Given → ReadOptions) (storage_options : List (String × String))
      (s : Session) where
    -- A table of the files of the arguments that were read.
    abbrev pub ListsRead : Result (List String × Given) → Table → Type 0
    ListsRead arguments t =
        (ps : List String) × (given : Given) × (arguments ≡ ok (ps, given))
        × Lists catalogs listings ps (read_options given) (stored format tasks storage_options s) t

    pub with_arguments-Outcome :
        (arguments : Result (List String × Given))
        → let (s', r) =
            with_arguments os sessions config display catalogs listings format tasks name
              read_options storage_options s arguments in
          Outcome catalogs (ListsRead arguments) name s s' r
    unfolding with_arguments register_files
    with_arguments-Outcome (err e) = λ other. refl
    with_arguments-Outcome (ok (ps, given)) =
        let s₁ = stored format tasks storage_options s in
        let listed = Lists catalogs listings ps (read_options given) s₁ in
        let (s₂, r) = register_types catalogs listings name ps (read_options given) s₁ in
        let shown : Error → Error = λ e. value_error (display e) in
        Outcome-earlier catalogs (ListsRead (ok (ps, given))) name s s₁ s₂ (map_err shown r)
          (get_table-stored format tasks storage_options s)
          (Outcome-weaker catalogs (ListsRead (ok (ps, given))) listed name s₁ s₂ (map_err shown r)
            (λ t l. (ps, given, refl, l))
            (map_err-Outcome catalogs listed name s₁ shown s₂ r
              (register_types-Outcome catalogs listings name ps (read_options given) s₁)))
