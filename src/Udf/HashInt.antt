-- ===== src/Udf/HashInt.antt =====
-- functions/hash_int.rs: the function `hash_int` of SQL. `hash` is what `DefaultHasher` makes of a
-- text or of none, and `show` is `{:?}` on a number.
use Prim.Native.String.{◌++◌ as append}
use mathlib.Core.List.{append-nil, append_assoc}
use xorq_datafusion.Common.{
  ℕ, suc, sym, ◌∙◌, ◌<◌, ◌-◌, ◌^◌, ◌≡◌, ◌==◌, not, Option, List, [], ◌∷◌, map, String, Result, ok,
  err, ◌++◌, execution_error, panicked, if◌then◌else◌, ltb, length, ◌>>=◌, arith, ap,
}
use xorq_datafusion.Common.Int.{ℤ, pos, negsuc}

-- An array of texts by its rows, of one of the three types of texts, or an array of another type.
pub data TextArray : Type 0 where
  utf8 large_utf8 utf8_view : List (Option String) → TextArray
  other_type : TextArray

-- `as i64` of a u64
abbrev pub as_i64 : ℕ → ℤ
as_i64 n = if ltb n (2 ^ 63) then pos n else negsuc (2 ^ 64 - suc n)

module _ {ColumnarValue : Type 0} (hash : Option String → ℕ) (show : ℕ → String)
    (values_to_arrays : List ColumnarValue → Result (List TextArray)) where
  -- The loop over the rows, which pushes a hash for each.
  push_hashes : List ℤ → List (Option String) → List ℤ
  push_hashes result [] = result
  push_hashes result (v ∷ vs) = push_hashes (result ++ as_i64 (hash v) ∷ []) vs

  hash_array : TextArray → Result (List ℤ)
  unfolding push_hashes
  hash_array (utf8 vs) = ok (push_hashes [] vs)
  hash_array (large_utf8 vs) = ok (push_hashes [] vs)
  hash_array (utf8_view vs) = ok (push_hashes [] vs)
  hash_array other_type = err (execution_error "Unexpected Datatype")

  hash_first : List TextArray → Result (List ℤ)
  unfolding hash_array
  hash_first [] = err (panicked "index out of bounds: the len is 0 but the index is 0")
  hash_first (a ∷ arrays) = hash_array a

  unfoldable pub invoke_with_args : List ColumnarValue → Result (List ℤ)
  unfolding hash_first
  invoke_with_args input =
      if not (length input == 1)
      then err (
          execution_error (
            append (show (length input))
              " args were supplied but encode takes exactly two arguments"))
      else values_to_arrays input >>= hash_first

  -- The rows of an array of texts, whatever its type.
  abbrev pub HasRows : TextArray → List (Option String) → Type 0
  HasRows (utf8 vs) rows = vs ≡ rows
  HasRows (large_utf8 vs) rows = vs ≡ rows
  HasRows (utf8_view vs) rows = vs ≡ rows
  HasRows other_type rows = ⊥

  pushed :
      (result : List ℤ) (vs : List (Option String))
      → push_hashes result vs ≡ result ++ map (λ v. as_i64 (hash v)) vs
  unfolding push_hashes
  pushed result [] = sym (append-nil result)
  pushed result (v ∷ vs) =
      pushed (result ++ as_i64 (hash v) ∷ []) vs
      ∙ append_assoc result (as_i64 (hash v) ∷ []) (map (λ v. as_i64 (hash v)) vs)

  hash_array-rows :
      (a : TextArray) (rows : List (Option String))
      → HasRows a rows
      → hash_array a ≡ ok (map (λ v. as_i64 (hash v)) rows)
  unfolding hash_array
  hash_array-rows (utf8 vs) rows h = ap ok (pushed [] vs ∙ ap (map λ v. as_i64 (hash v)) h)
  hash_array-rows (large_utf8 vs) rows h = ap ok (pushed [] vs ∙ ap (map λ v. as_i64 (hash v)) h)
  hash_array-rows (utf8_view vs) rows h = ap ok (pushed [] vs ∙ ap (map λ v. as_i64 (hash v)) h)
  hash_array-rows other_type rows h = absurd h

  -- The function of one column of texts has in each row the hash of that row's text, or of none, as
  -- an i64, whichever of the three types of texts the column has.
  pub invoke_with_args-rows :
      (arg : ColumnarValue) (a : TextArray) (rows : List (Option String))
      → values_to_arrays (arg ∷ []) ≡ ok (a ∷ [])
      → HasRows a rows
      → invoke_with_args (arg ∷ []) ≡ ok (map (λ v. as_i64 (hash v)) rows)
  unfolding invoke_with_args hash_first
  invoke_with_args-rows arg a rows made h =
      ap (λ r. r >>= hash_first) made ∙ hash_array-rows a rows h

-- Hashes of 64 bits that differ are different numbers of an i64 too.
pub as_i64-injective : (m n : ℕ) → m < 2 ^ 64 → n < 2 ^ 64 → as_i64 m ≡ as_i64 n → m ≡ n
as_i64-injective m n below below' h = ground arith
