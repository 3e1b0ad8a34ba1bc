-- ===== src/Common/Results.antt =====
-- errors.rs: the crate's error type, `Result` and its `?` operator. A message is kept where the
-- source writes it; an error that another package raised is its text.
use Prim.Native.String.{String}
use mathlib.Core.List.{List, [], ◌∷◌}
use mathlib.Core.Path.{◌≡◌, refl}
use mathlib.Core.Logic.{◌⊎◌, inl, inr}
use mathlib.Core.Bool.{Bool, true, false}

-- `DataFusionError` of errors.rs, and the kinds of Python exception the bindings raise. Of an error
-- that py_type_err or py_runtime_err makes, which show a text by `{:?}`, the text is kept.
pub data Error : Type 0 where
  execution_error : String → Error
  arrow_error : String → Error
  common : String → Error
  python_error : String → Error
  encoding_error : String → Error
  external : String → Error
  panicked : String → Error
  not_implemented : String → Error
  configuration : String → Error
  value_error : String → Error
  type_error : String → Error
  runtime_error : String → Error
  import_error : String → Error

pub data Result {ℓ} (Value : Type ℓ) : Type ℓ where
  ok : Value → Result Value
  err : Error → Result Value

-- The code returned a value.
abbrev pub IsOk {ℓ} : {A : Type ℓ} → Result A → Type 0
IsOk (ok a) = Unit {0}
IsOk (err e) = ⊥

abbrev pub is_ok {ℓ} : {A : Type ℓ} → Result A → Bool
is_ok (ok a) = true
is_ok (err e) = false

-- `Result::unwrap`, whose panic ends the call.
abbrev pub unwrap {ℓ} : {A : Type ℓ} → Result A → Result A
unwrap (ok a) = ok a
unwrap (err e) = err (panicked "called `Result::unwrap()` on an `Err` value")

-- `?`: the first error is the outcome.
module _ {ℓ κ} {A : Type ℓ} {B : Type κ} where
  infixl 5 ◌>>=◌
  abbrev pub ◌>>=◌ : Result A → (A → Result B) → Result B
  err e >>= next = err e
  ok a >>= next = next a

  -- `iter().map(f).collect::<Result<Vec<_>, _>>()`: the first error ends the walk.
  abbrev pub traverse : (A → Result B) → List A → Result (List B)
  traverse f [] = ok []
  traverse f (x ∷ xs) = elim (f x) [
    | err e ↦ err e
    | ok y ↦ elim (traverse f xs) [ ok ys ↦ ok (y ∷ ys) | err e ↦ err e ]
  ]

pub Result-cases {ℓ} :
    {A : Type ℓ} (r : Result A) → ((a : A) × (r ≡ ok a)) ⊎ ((e : Error) × (r ≡ err e))
Result-cases (ok a) = inl (a, refl)
Result-cases (err e) = inr (e, refl)
