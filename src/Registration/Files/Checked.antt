-- ===== src/Registration/Files/Checked.antt =====
-- What is registered of files: a listing of paths that were checked.
use text.Mathlib.TextBridge.{IsSuffix}
use text.Mathlib.TextEquality.{eq_iff}
use xorq_datafusion.Common.{
  ◌≡◌, refl, ◌⊎◌, inl, inr, true, List, [], ◌∷◌, map, String, arith, ends_with, ends_with-IsSuffix,
  Result, ok, err, ◌>>=◌, Result-cases, Bool-cases,
}
use xorq_datafusion.DataType.Types.{DataType}
use xorq_datafusion.Registration.Catalogs.{Catalogs, Outcome, register_table-Outcome}
use xorq_datafusion.Registration.Files.{
  ListingTableUrl, Listings, partition_column, convert_table_partition_cols, matches,
  check_extensions, table_of, listed, register_types,
}

-- A path is a folder, or ends with the extension.
abbrev pub Matches : String → ListingTableUrl → Type 0
Matches extension path = (path.is_collection ≡ true) ⊎ IsSuffix extension path.as_str

abbrev pub AllMatch : String → List ListingTableUrl → Type 0
AllMatch extension [] = Unit {0}
AllMatch extension (path ∷ paths) = Matches extension path × AllMatch extension paths

abbrev pub IsNonempty : {A : Type 0} → List A → Type 0
IsNonempty [] = ⊥
IsNonempty (x ∷ xs) = Unit {0}

abbrev pub AllStrings : List (String × String) → Type 0
AllStrings [] = Unit {0}
AllStrings ((name, ty) ∷ cols) = (ty ≡ "string") × AllStrings cols

matches-Matches :
    (extension : String) (path : ListingTableUrl)
    → matches extension path ≡ true
    → Matches extension path
unfolding matches
matches-Matches extension path h = elim (Bool-cases (ends_with path.as_str extension)) [
  | inl ends ↦ inr (ends_with-IsSuffix path.as_str extension ends)
  | inr other ↦ inl (ground arith)
]

check_extensions-AllMatch :
    (extension : String) (paths : List ListingTableUrl)
    → check_extensions extension paths ≡ ok tt
    → AllMatch extension paths
unfolding check_extensions
check_extensions-AllMatch extension [] h = tt
check_extensions-AllMatch extension (path ∷ paths) h = elim (Bool-cases (matches extension path)) [
  | inl m ↦
      (matches-Matches extension path m, check_extensions-AllMatch extension paths (ground arith))
  | inr m ↦ absurd (ground arith)
]

pub convert-AllStrings :
    (cols : List (String × String)) (cs : List (String × DataType))
    → convert_table_partition_cols cols ≡ ok cs
    → AllStrings cols × (cs ≡ map (λ col. (col.0, DataType.utf8)) cols)
unfolding convert_table_partition_cols partition_column
convert-AllStrings [] cs h = (tt, ground arith)
convert-AllStrings ((name, ty) ∷ cols) cs h =
    elim (Result-cases (convert_table_partition_cols cols)) [
      | inl (rest, p) ↦
          let (strings, e) = convert-AllStrings cols rest p in
          ((ground (arith, eq_iff ty "string"), strings), ground arith)
      | inr (e, p) ↦ absurd (ground arith)
    ]

module _ {Session Table : Type 0} (catalogs : Catalogs Session Table)
    (listings : Listings Session Table) where
  open listings use {
    ReadOptions, Schema, to_urls, file_extension, get_resolved_schema, listing_table,
  }

  -- A table lists checked paths: there is one, and each is a folder or ends with the extension.
  abbrev pub ListsUrls : List ListingTableUrl → ReadOptions → Session → Table → Type 0
  ListsUrls urls options s t =
      IsNonempty urls
      × AllMatch (file_extension options s) urls
      × ((schema : Schema) × (listing_table urls options schema ≡ ok t))

  abbrev pub Lists : List String → ReadOptions → Session → Table → Type 0
  Lists paths options s t =
      (urls : List ListingTableUrl) × (to_urls paths ≡ ok urls) × ListsUrls urls options s t

  table_of-ListsUrls :
      (options : ReadOptions) (s : Session) (urls : List ListingTableUrl) (t : Table)
      → table_of catalogs listings options s urls ≡ ok t
      → ListsUrls urls options s t
  unfolding table_of
  table_of-ListsUrls options s [] t h = absurd (ground arith)
  table_of-ListsUrls options s (first ∷ rest) t h =
      elim (Result-cases (check_extensions (file_extension options s) (first ∷ rest))) [
        | inr (e, p) ↦ absurd (ground arith)
        | inl (checked, p) ↦ elim (Result-cases (get_resolved_schema options s first)) [
          | inr (e, q) ↦ absurd (ground arith)
          | inl (schema, q) ↦ (
            tt,
            check_extensions-AllMatch (file_extension options s) (first ∷ rest) (ground arith),
            (schema, ground arith),
          )
        ]
      ]

  made-Lists :
      (paths : List String) (options : ReadOptions) (s : Session) (t : Table)
      → (to_urls paths >>= table_of catalogs listings options s) ≡ ok t
      → Lists paths options s t
  made-Lists paths options s t h = elim (Result-cases (to_urls paths)) [
    | inl (urls, p) ↦ (urls, p, table_of-ListsUrls options s urls t (ground arith))
    | inr (e, p) ↦ absurd (ground arith)
  ]

  listed-Outcome :
      (name : String) (paths : List String) (options : ReadOptions) (s : Session)
      (made : Result Table)
      → (to_urls paths >>= table_of catalogs listings options s) ≡ made
      → let (s', r) = listed catalogs listings name made s in
        Outcome catalogs (Lists paths options s) name s s' r
  unfolding listed
  listed-Outcome name paths options s (err e) h = λ other. refl
  listed-Outcome name paths options s (ok t) h =
      register_table-Outcome catalogs (Lists paths options s) name s t
        (made-Lists paths options s t h) (catalogs.register_table name t s).1 refl

  pub register_types-Outcome :
      (name : String) (paths : List String) (options : ReadOptions) (s : Session)
      → let (s', r) = register_types catalogs listings name paths options s in
        Outcome catalogs (Lists paths options s) name s s' r
  unfolding register_types
  register_types-Outcome name paths options s =
      listed-Outcome name paths options s (to_urls paths >>= table_of catalogs listings options s)
        refl
