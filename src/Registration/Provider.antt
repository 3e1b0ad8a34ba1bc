-- ===== src/Registration/Provider.antt =====
-- context.rs: `register_py_table_provider`, which imports a provider of another library over the
-- FFI protocol, or wraps one of Python (`PyTableProvider::new` of provider.rs).
pub mod Checks
use Prim.Native.String.{◌++◌ as append}
use text.Mathlib.Text.{find?}
use xorq_datafusion.Common.{
  ℕ, ◌⊎◌, inl, inr, Bool, true, false, not, ◌&&◌, ◌||◌, ◌==◌, Option, none, some, String,
  if◌then◌else◌, Result, ok, err, Error, value_error, type_error, runtime_error, import_error,
  ◌>>=◌,
}
use xorq_datafusion.Arrow.{SchemaRef}
use xorq_datafusion.Registration.Catalogs.{Catalogs, map_err}

-- An exception that a call raised.
pub record Raised : Type 0 where
  pub error : Error
  pub is_type_error : Bool
  pub has_traceback : Bool
  pub message : String

-- The objects of Python that may be providers. `call` is `__datafusion_table_provider__(session)`,
-- `capsule_pointer` checks the name of a capsule, and a pointer leads to an `FFI_TableProvider`
-- with the version of DataFusion that it was built against.
pub record PyProviders (T : Type 0) : Type 1 where
  pub Object : Type 0
  pub Capsule : Type 0
  pub Pointer : Type 0
  pub Ffi : Type 0
  pub hasattr : Object → String → Result Bool
  pub call : Object → Object ⊎ Raised
  pub as_capsule : Object → Option Capsule
  pub capsule_pointer : Capsule → String → Option Pointer
  pub deref : Pointer → Ffi
  pub version : Ffi → ℕ
  pub schema : Object → Result (SchemaRef T)
  pub show_version : ℕ → String

-- `message.contains(part)`
abbrev contains : String → String → Bool
contains message part = elim (find? message part) [ some at ↦ true | none ↦ false ]

unfoldable pub is_arity_error : String → Bool
is_arity_error message =
    (contains message "positional argument" || contains message "takes no arguments")
    && contains message " given"

-- The error of a call: a provider that predates the session argument gets an error of its own.
unfoldable pub call_error : Raised → Error
unfolding is_arity_error
call_error raised =
    if raised.is_type_error && (not raised.has_traceback && is_arity_error raised.message)
    then import_error (
        append
          "Incompatible libraries. `__datafusion_table_provider__` must accept the SessionContext it is being installed on. Upgrade the library providing this table. ("
          (append raised.message ")"))
    else raised.error

-- `ok_or_else`
unfoldable pub ok_or : {A : Type 0} → Error → Option A → Result A
ok_or e none = err e
ok_or e (some a) = ok a

-- A table of the session: one of the other library, hosted, or one of Python, with its schema.
pub data Imported (T Ffi Object : Type 0) : Type 0 where
  hosted_ffi : Ffi → Imported T Ffi Object
  py_table : Object → SchemaRef T → Imported T Ffi Object

module _ {T : Type 0} (python : PyProviders T) (ours : ℕ) (runtime : Option (Unit {0})) where
  open python use {
    Object, Capsule, Pointer, Ffi, hasattr, call, as_capsule, capsule_pointer, deref, version,
    schema, show_version,
  }

  unfoldable pub called : Object → Result Object
  unfolding call_error
  called provider = elim (call provider) [
    | inl capsule ↦ ok capsule
    | inr raised ↦ err (call_error raised)
  ]

  -- The versions are compared.
  unfoldable pub checked_version : Ffi → Result Ffi
  checked_version ffi =
      if ours == version ffi
      then ok ffi
      else err (
          value_error (
            append "table provider was built against DataFusion " (
              append (show_version (version ffi))
                (append ", but xorq-datafusion uses DataFusion " (show_version ours)))))

  unfoldable pub import_ffi_table_provider : Object → Result Ffi
  unfolding called checked_version ok_or
  import_ffi_table_provider provider = do
    handle ← ok_or (runtime_error "tokio runtime has been shut down") runtime
    returned ← called provider
    capsule ←
        ok_or (type_error "__datafusion_table_provider__ must return a PyCapsule")
          (as_capsule returned)
    pointer ←
        ok_or
          (value_error
            "__datafusion_table_provider__ must return a 'datafusion_table_provider' capsule")
          (capsule_pointer capsule "datafusion_table_provider")
    checked_version (deref pointer)

  unfoldable pub imported : Object → Result (Imported T Ffi Object)
  unfolding import_ffi_table_provider
  imported provider = do
    is_ffi ← hasattr provider "__datafusion_table_provider__"
    if is_ffi
        then (import_ffi_table_provider provider >>= λ ffi. ok (hosted_ffi ffi))
        else (schema provider >>= λ s. ok (py_table provider s))

module _ {T Session Table : Type 0} (python : PyProviders T) (ours : ℕ)
    (runtime : Option (Unit {0})) (catalogs : Catalogs Session Table)
    (from_datafusion_error : Error → Error)
    (table : Imported T python.Ffi python.Object → Table) where
  unfoldable pub registered_import :
      String → Result (Imported T python.Ffi python.Object) → Session → Session × Result (Unit {0})
  unfolding map_err
  registered_import name (err e) s = (s, err e)
  registered_import name (ok i) s =
      let (s', r) = catalogs.register_table name (table i) s in
      (s', map_err from_datafusion_error r)

  unfoldable pub register_py_table_provider :
      String → python.Object → Session → Session × Result (Unit {0})
  unfolding imported registered_import
  register_py_table_provider name provider s =
      registered_import name (imported python ours runtime provider) s
