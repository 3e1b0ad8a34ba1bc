-- ===== src/Registration/Provider/Checks.antt =====
-- What was checked of a provider before it is a table of the session.
use xorq_datafusion.Common.{
  ℕ, ◌≡◌, refl, subst, inl, inr, true, false, ◌==◌, Option, some, String, arith, Result, ok, err,
  Error, Result-cases, Option-cases, Bool-cases, ==_iff,
}
use xorq_datafusion.Registration.Catalogs.{Catalogs, Outcome, registered-Outcome}
use xorq_datafusion.Registration.Provider.{
  PyProviders, Imported, hosted_ffi, py_table, ok_or, called, checked_version,
  import_ffi_table_provider, imported, registered_import, register_py_table_provider,
}

module _ {T : Type 0} (python : PyProviders T) (ours : ℕ) (runtime : Option (Unit {0}))
    (provider : python.Object) where
  open python use {
    Object, Capsule, Pointer, Ffi, hasattr, call, as_capsule, capsule_pointer, deref, version,
    schema,
  }

  -- An FFI table is what the pointer of the capsule leads to that the provider's own method
  -- returned: the capsule has the name of the protocol, and the versions of DataFusion are equal.
  abbrev pub IsProtocol : Ffi → Type 0
  IsProtocol ffi =
      (returned : Object) × (capsule : Capsule) × (pointer : Pointer) × (call provider
        ≡ inl returned)
      × (as_capsule returned ≡ some capsule)
      × (capsule_pointer capsule "datafusion_table_provider" ≡ some pointer)
      × (deref pointer ≡ ffi)
      × (version ffi ≡ ours)

  abbrev pub IsChecked : Imported T Ffi Object → Type 0
  IsChecked (hosted_ffi ffi) =
      (hasattr provider "__datafusion_table_provider__" ≡ ok true) × IsProtocol ffi
  IsChecked (py_table object s) =
      (hasattr provider "__datafusion_table_provider__" ≡ ok false)
      × (object ≡ provider)
      × (schema provider ≡ ok s)

  checked_version-version :
      (ffi ffi' : Ffi)
      → checked_version python ours runtime ffi ≡ ok ffi'
      → (ffi ≡ ffi') × (version ffi' ≡ ours)
  unfolding checked_version
  checked_version-version ffi ffi' h = elim (Bool-cases (ours == version ffi)) [
    | inl same ↦ ground (arith, ==_iff ours (version ffi))
    | inr other ↦ absurd (ground arith)
  ]

  called-call :
      (returned : Object)
      → called python ours runtime provider ≡ ok returned
      → call provider ≡ inl returned
  unfolding called
  called-call returned h = ground arith

  pointed-IsProtocol :
      (returned : Object) (capsule : Capsule) (ffi : Ffi)
      → called python ours runtime provider ≡ ok returned
      → as_capsule returned ≡ some capsule
      → import_ffi_table_provider python ours runtime provider ≡ ok ffi
      → IsProtocol ffi
  unfolding import_ffi_table_provider ok_or
  pointed-IsProtocol returned capsule ffi c d h =
      elim (Option-cases (capsule_pointer capsule "datafusion_table_provider")) [
        | inl nothing ↦ absurd (ground arith)
        | inr (pointer, n) ↦
            let (same, versions) = checked_version-version (deref pointer) ffi (ground arith) in
            (returned, capsule, pointer, called-call returned c, d, n, same, versions)
      ]

  import-IsProtocol :
      (ffi : Ffi) → import_ffi_table_provider python ours runtime provider ≡ ok ffi → IsProtocol ffi
  unfolding import_ffi_table_provider ok_or
  import-IsProtocol ffi h = elim (Result-cases (called python ours runtime provider)) [
    | inr (e, c) ↦ absurd (ground arith)
    | inl (returned, c) ↦ elim (Option-cases (as_capsule returned)) [
      | inl nothing ↦ absurd (ground arith)
      | inr (capsule, d) ↦ pointed-IsProtocol returned capsule ffi c d h
    ]
  ]

  imported-IsChecked :
      (i : Imported T Ffi Object) → imported python ours runtime provider ≡ ok i → IsChecked i
  unfolding imported
  imported-IsChecked i h = elim (Result-cases (hasattr provider "__datafusion_table_provider__")) [
    | inr (e, a) ↦ absurd (ground arith)
    | inl (true, a) ↦ elim (Result-cases (import_ffi_table_provider python ours runtime provider)) [
      | inr (e, p) ↦ absurd (ground arith)
      | inl (ffi, p) ↦
          let same : hosted_ffi ffi ≡ i = ground arith in
          subst IsChecked same (a, import-IsProtocol ffi p)
    ]
    | inl (false, a) ↦ elim (Result-cases (schema provider)) [
      | inr (e, p) ↦ absurd (ground arith)
      | inl (s, p) ↦
          let same : py_table provider s ≡ i = ground arith in subst IsChecked same (a, refl, p)
    ]
  ]

module _ {T Session Table : Type 0} (python : PyProviders T) (ours : ℕ)
    (runtime : Option (Unit {0})) (catalogs : Catalogs Session Table)
    (from_datafusion_error : Error → Error)
    (table : Imported T python.Ffi python.Object → Table) where
  -- A table is one that was imported from a provider and checked.
  abbrev pub Imports : python.Object → Table → Type 0
  Imports provider t =
      (i : Imported T python.Ffi python.Object) × (table i ≡ t)
      × IsChecked python ours runtime provider i

  made-Outcome :
      (name : String) (provider : python.Object) (s : Session)
      (made : Result (Imported T python.Ffi python.Object))
      → imported python ours runtime provider ≡ made
      → let (s', r) =
          registered_import python ours runtime catalogs from_datafusion_error table name made s in
        Outcome catalogs (Imports provider) name s s' r
  unfolding registered_import
  made-Outcome name provider s (err e) h = λ other. refl
  made-Outcome name provider s (ok i) h =
      registered-Outcome catalogs (Imports provider) name s from_datafusion_error (table i)
        (i, refl, imported-IsChecked python ours runtime provider i h)

  -- If registering a provider succeeds, its name has a table: that of another library, taken from a
  -- capsule with the protocol's name and built against the same version of DataFusion, if the
  -- provider has the method of the protocol, and else the provider itself with the schema that was
  -- read of it; if it fails, every table is as it was.
  pub register_py_table_provider-Outcome :
      (name : String) (provider : python.Object) (s : Session)
      → let (s', r) =
          register_py_table_provider python ours runtime catalogs from_datafusion_error table name
            provider s in
        Outcome catalogs (Imports provider) name s s' r
  unfolding register_py_table_provider
  register_py_table_provider-Outcome name provider s =
      made-Outcome name provider s (imported python ours runtime provider) refl
