-- ===== src/Common/Ascii.antt =====
-- `str::to_ascii_lowercase` and `str::parse::<u64>` of Rust's standard library.
use Prim.Native.Nat.{ℕ, ◌+◌, ◌*◌, ◌-◌, ◌^◌, ◌<◌}
use Prim.Native.Char.{Char, code}
use Prim.Native.String.{String, [], ◌∷◌}
use mathlib.Core.Path.{◌≡◌}
use mathlib.Core.Bool.{◌||◌}
use mathlib.Core.Option.{Option, none, some}
use native.Mathlib.Omega.{arith}
use xorq_datafusion.Common.Tests.{ltb, ◌==◌, if◌then◌else◌}

-- The character of the second text at the place that a character has in the first.
swap : String → String → Char → Char
swap (u ∷ us) (l ∷ ls) c = if code c == code u then l else swap us ls c
swap _ _ c = c

unfoldable pub to_ascii_lowercase : String → String
unfolding swap
to_ascii_lowercase [] = []
to_ascii_lowercase (c ∷ s) =
    swap "ABCDEFGHIJKLMNOPQRSTUVWXYZ" "abcdefghijklmnopqrstuvwxyz" c ∷ to_ascii_lowercase s

-- A sum that leaves the 64 bits is an error.
digits : ℕ → String → Option ℕ
digits n [] = if ltb n (2 ^ 64) then some n else none
digits n (c ∷ s) =
    if ltb (code c) 48 || ltb 57 (code c) then none else digits (n * 10 + (code c - 48)) s

-- A plus sign may stand before the digits, of which there is at least one.
unfoldable pub parse_u64 : String → Option ℕ
unfolding digits
parse_u64 [] = none
parse_u64 (c ∷ []) = digits 0 (c ∷ [])
parse_u64 (c ∷ d ∷ s) = if code c == 43 then digits 0 (d ∷ s) else digits 0 (c ∷ d ∷ s)

digits_lt : (n : ℕ) (s : String) (m : ℕ) → digits n s ≡ some m → m < 2 ^ 64
unfolding digits
digits_lt n [] m h = ground arith
digits_lt n (c ∷ s) m h = ground (arith, digits_lt (n * 10 + (code c - 48)) s m)

pub parse_u64_lt : (s : String) (m : ℕ) → parse_u64 s ≡ some m → m < 2 ^ 64
unfolding parse_u64
parse_u64_lt [] m h = ground arith
parse_u64_lt (c ∷ []) m h = digits_lt 0 (c ∷ []) m h
parse_u64_lt (c ∷ d ∷ s) m h = ground (arith, digits_lt 0 (d ∷ s) m, digits_lt 0 (c ∷ d ∷ s) m)
