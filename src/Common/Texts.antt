-- ===== src/Common/Texts.antt =====
-- `str::ends_with` of Rust's standard library.
use Prim.Native.String.{String, [], ◌∷◌}
use mathlib.Core.Path.{◌≡◌, subst}
use mathlib.Core.Logic.{inl, inr}
use mathlib.Core.Bool.{Bool, true, ◌||◌}
use native.Mathlib.Omega.{arith}
use text.Mathlib.Text.{◌==◌ as str_eq}
use text.Mathlib.TextBridge.{IsSuffix}
use text.Mathlib.TextEquality.{eq_iff}
use text.Mathlib.TextLemmas.{suffix_refl, suffix-cons, IsSuffix-trans}
use xorq_datafusion.Common.Tests.{Bool-cases}

unfoldable pub ends_with : String → String → Bool
ends_with [] t = str_eq [] t
ends_with (c ∷ s) t = str_eq (c ∷ s) t || ends_with s t

whole-IsSuffix : (s t : String) → str_eq s t ≡ true → IsSuffix t s
whole-IsSuffix s t h = subst (λ u. IsSuffix u s) ((eq_iff s t).0 h) (suffix_refl s)

-- A text that ends with another has it as its suffix.
pub ends_with-IsSuffix : (s t : String) → ends_with s t ≡ true → IsSuffix t s
unfolding ends_with
ends_with-IsSuffix [] t h = whole-IsSuffix [] t h
ends_with-IsSuffix (c ∷ s) t h = elim (Bool-cases (str_eq (c ∷ s) t)) [
  | inl whole ↦ whole-IsSuffix (c ∷ s) t whole
  | inr shorter ↦ IsSuffix-trans t (ends_with-IsSuffix s t (ground arith)) (suffix-cons c s)
]
