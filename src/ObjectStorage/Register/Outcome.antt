-- ===== src/ObjectStorage/Register/Outcome.antt =====
-- What registering a location does to the stores of a session, and that the metadata of an object
-- comes from the store that registering its location gives.
use xorq_datafusion.Common.{
  ◌≡◌, refl, Option, some, List, String, arith, Result, ok, err, Error, Result-cases, inl, inr,
  ◌>>=◌,
}
use xorq_datafusion.ObjectStorage.Options.{AwsOptions, GcpOptions}
use xorq_datafusion.ObjectStorage.Stores.{Url, SdkConfig, ObjectStores}
use xorq_datafusion.ObjectStorage.Sessions.{ConfigFileType, ObjectMeta, Sessions}
use xorq_datafusion.ObjectStorage.Register.{
  register_extension, store_for, register_at, register_parsed, metadata_parsed,
  register_object_store_and_config_extensions, get_object_metadata, metadata_at, table_options,
  store_of, find_object, format_of, storage_options_of, metadata_to_pydict, default_aws,
  default_gcp,
}

module _ (os : ObjectStores) (sessions : Sessions os.Store) (config : SdkConfig os.Provider)
    (display : Error → String) where
  open os use {Store}
  open sessions use {
    Session, TableOptions, parse_location, get_store, get_store-register_aws,
    get_store-register_gcp, get_store-register_object_store, object_path, head,
  }

  abbrev extended : Url → Session → Session
  extended url s = register_extension os sessions config display url.scheme s

  get_store-extended :
      (url : Url) (s : Session) (u : Url) → get_store (extended url s) u ≡ get_store s u
  unfolding register_extension
  get_store-extended url s u =
      ground (arith, get_store-register_aws default_aws s u, get_store-register_gcp default_gcp s u)

  abbrev pub register :
      String
      → Option ConfigFileType
      → List (String × String)
      → Session
      → Session × Result (Unit {0})
  register = register_object_store_and_config_extensions os sessions config display

  register_at-err :
      (url : Url) (format : Option ConfigFileType) (options : List (String × String)) (s : Session)
      (e : Error)
      → (register_at os sessions config display url format options s).1 ≡ err e
      → (u : Url)
      → get_store (register_at os sessions config display url format options s).0 u ≡ get_store s u
  unfolding register_at
  register_at-err url format options s e h u = ground (arith, get_store-extended url s u)

  register_parsed-err :
      (format : Option ConfigFileType) (options : List (String × String)) (s : Session) (e : Error)
      (parsed : Result Url)
      → (register_parsed os sessions config display format options s parsed).1 ≡ err e
      → (u : Url)
      → get_store (register_parsed os sessions config display format options s parsed).0 u
        ≡ get_store s u
  unfolding register_parsed
  register_parsed-err format options s e (ok url) h u = register_at-err url format options s e h u
  register_parsed-err format options s e (err f) h u = refl

  -- A location that could not be registered leaves every store of the session as it was, whichever
  -- step failed.
  pub register-err :
      (location : String) (format : Option ConfigFileType) (options : List (String × String))
      (s : Session) (e : Error)
      → (register location format options s).1 ≡ err e
      → (u : Url) → get_store (register location format options s).0 u ≡ get_store s u
  unfolding register_object_store_and_config_extensions
  register-err location format options s e h u =
      register_parsed-err format options s e (parse_location location) h u

  -- What no extension and no store changes in a session.
  module _ {A : Type 0} (view : Session → A)
      (aws : (o : AwsOptions) (s : Session) → view (sessions.register_aws o s) ≡ view s)
      (gcp : (o : GcpOptions) (s : Session) → view (sessions.register_gcp o s) ≡ view s)
      (stores : (u : Url) (x : Store) (s : Session)
        → view (sessions.register_object_store u x s) ≡ view s) where
    extended-keeps : (url : Url) (s : Session) → view (extended url s) ≡ view s
    unfolding register_extension
    extended-keeps url s = ground (arith, aws default_aws s, gcp default_gcp s)

    register_parsed-keeps :
        (format : Option ConfigFileType) (options : List (String × String)) (s : Session)
        (parsed : Result Url)
        → view (register_parsed os sessions config display format options s parsed).0 ≡ view s
    unfolding register_parsed register_at
    register_parsed-keeps format options s (err e) = refl
    register_parsed-keeps format options s (ok url) =
        elim (Result-cases
          (store_for os sessions config display url format options (extended url s))) [
            | inl (store, p) ↦
                ground (arith, stores url store (extended url s), extended-keeps url s)
            | inr (e, p) ↦ ground (arith, extended-keeps url s)
          ]

    pub register-keeps :
        (location : String) (format : Option ConfigFileType) (options : List (String × String))
        (s : Session)
        → view (register location format options s).0 ≡ view s
    unfolding register_object_store_and_config_extensions
    register-keeps location format options s =
        register_parsed-keeps format options s (parse_location location)

  register_at-ok :
      (url : Url) (format : Option ConfigFileType) (options : List (String × String)) (s : Session)
      (store : Store)
      → store_for os sessions config display url format options (extended url s) ≡ ok store
      → ((register_at os sessions config display url format options s).1 ≡ ok tt)
        × (get_store (register_at os sessions config display url format options s).0 url ≡ ok store)
  unfolding register_at
  register_at-ok url format options s store h =
      ground (arith, get_store-register_object_store url store (extended url s))

  -- The object was found in a store, and the dictionary shows what the store says of it.
  abbrev pub Shows : Store → Url → List (String × String) → Type 0
  Shows store url dict =
      (path : String) × (m : ObjectMeta) × (object_path url ≡ ok path)
      × (head store path ≡ ok m)
      × (dict ≡ metadata_to_pydict m)

  object_of :
      (url : Url) (store : Store) (m : ObjectMeta)
      → (object_path url >>= head store) ≡ ok m
      → (path : String) × (object_path url ≡ ok path) × (head store path ≡ ok m)
  object_of url store m h = elim (Result-cases (object_path url)) [
    | inl (path, p) ↦ (path, p, ground arith)
    | inr (e, p) ↦ absurd (ground arith)
  ]

  find_object-ok :
      (url : Url) (s : Session) (t : TableOptions) (m : ObjectMeta)
      → find_object os sessions config display url s t ≡ ok m
      → (store : Store) × (store_of os sessions config display url s t ≡ ok store)
        × ((object_path url >>= head store) ≡ ok m)
  unfolding find_object
  find_object-ok url s t m h = elim (Result-cases (store_of os sessions config display url s t)) [
    | inl (store, p) ↦ (store, p, ground arith)
    | inr (e, p) ↦ absurd (ground arith)
  ]

  module _ (url : Url) (format : Option ConfigFileType) (options : List (String × String))
      (s : Session) (dict : List (String × String)) where
    -- The dictionary, from the object that was found.
    found :
        (t : TableOptions)
        → table_options os sessions config display url format options (extended url s) ≡ ok t
        → (m : ObjectMeta) → find_object os sessions config display url (extended url s) t ≡ ok m
        → dict ≡ metadata_to_pydict m
        → (store : Store) × (store_for os sessions config display url format options
              (extended url s)
            ≡ ok store)
          × Shows store url dict
    unfolding store_for
    found t p m q d =
        let (store, a, b) = find_object-ok url (extended url s) t m q in
        let (path, c, e) = object_of url store m b in (store, ground arith, (path, m, c, e, d))

    metadata_at-ok :
        (metadata_at os sessions config display url format options s).1 ≡ ok dict
        → (store : Store) × (store_for os sessions config display url format options
              (extended url s)
            ≡ ok store)
          × Shows store url dict
    unfolding metadata_at
    metadata_at-ok h =
        let s' = extended url s in
        elim (Result-cases (table_options os sessions config display url format options s')) [
          | inl (t, p) ↦ elim (Result-cases (find_object os sessions config display url s' t)) [
            | inl (m, q) ↦ found t p m q (ground arith)
            | inr (e, q) ↦ absurd (ground arith)
          ]
          | inr (e, p) ↦ absurd (ground arith)
        ]

  -- If the metadata of an object are given, then registering its location with the same options, in
  -- the same order of the map, and the format that was named succeeds, on the same session, and the
  -- store it registers at the URL of the location is the one that was asked for the object.
  pub get_object_metadata-register :
      (location file_format : String) (kwargs : Option (Result (List (String × String))))
      (s : Session) (url : Url) (dict : List (String × String))
      → parse_location location ≡ ok url
      → (get_object_metadata os sessions config display (some location) file_format kwargs s).1
        ≡ ok dict
      → let done = register location (format_of file_format) (storage_options_of kwargs) s in
        (done.1 ≡ ok tt)
        × (store : Store) × (get_store done.0 url ≡ ok store)
        × Shows store url dict
  unfolding get_object_metadata metadata_parsed register_object_store_and_config_extensions
      register_parsed
  get_object_metadata-register location file_format kwargs s url dict p h =
      let format = format_of file_format in
      let options = storage_options_of kwargs in
      let (store, a, b) = metadata_at-ok url format options s dict (rw p at h) in
      let c = register_at-ok url format options s store a in rw p (c.0, store, c.1, b)
