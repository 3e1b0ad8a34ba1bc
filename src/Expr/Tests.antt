-- ===== src/Expr/Tests.antt =====
-- The theorems on expressions, at a simple CASE, a literal and a frame of rows.
use xorq_datafusion.Common.{refl, Bool, true, false, none, some, List, [], ◌∷◌}
use xorq_datafusion.DataType.Types.{ScalarValue}
use xorq_datafusion.Expr.Types.{Expr, present, done, arm, eq}
use xorq_datafusion.Expr.Rex.{rex_type, rex_call_operands, case_arms}
use xorq_datafusion.Expr.Operands.{rex_call_operands-Falls, Falls}
use xorq_datafusion.Expr.Variants.{to_variant}
use xorq_datafusion.Expr.Variants.Operands.{Agrees, to_variant-Agrees}
use xorq_datafusion.Expr.Window.{WindowFrameUnits, WindowFrameBound, WindowFrames, new}
use xorq_datafusion.Expr.Window.Bounds.{Outcome, new-Outcome}

abbrev flag : Expr
flag = Expr.column none "flag"

abbrev yes' : Expr
yes' = Expr.literal (ScalarValue.boolean (some true))

abbrev branched : Expr
branched = Expr.case (present flag) (arm yes' flag done) (present yes')

abbrev operands : List Expr
operands = Expr.binary_expr flag eq yes' ∷ flag ∷ yes' ∷ []

rex_call_operands-Falls_example : Falls (rex_type branched) branched operands
unfolding rex_call_operands rex_type case_arms
rex_call_operands-Falls_example = rex_call_operands-Falls (λ e. "expr") branched operands refl

to_variant-Agrees_example :
    Agrees
      (λ e. "expr")
      (λ e. "expr")
      (λ t. t)
      branched
      (to_variant (λ e. "expr") (λ t. t) branched)
to_variant-Agrees_example = to_variant-Agrees (λ e. "expr") (λ e. "expr") (λ t. t) branched

abbrev is_missing : ScalarValue → Bool
is_missing (ScalarValue.uint64 none) = true
is_missing _ = false

abbrev sample_frames : WindowFrames
sample_frames = record {
  WindowFrame = WindowFrameUnits × WindowFrameBound × WindowFrameBound;
  new_bounds = λ u s e. (u, s, e);
  units = λ f. f.0;
  start_bound = λ f. f.1;
  end_bound = λ f. f.2;
  is_null = is_missing;
  quoted = λ s. s;
  debug = λ u. "units";
  display = λ v. "value";
  units-new_bounds = λ u s e. refl;
  start_bound-new_bounds = λ u s e. refl;
  end_bound-new_bounds = λ u s e. refl;
  is_null-none = refl;
  is_null-some = λ n. refl;
}

new-Outcome_example :
    Outcome sample_frames "Rows" (some 3) none (new sample_frames "Rows" (some 3) none)
new-Outcome_example = new-Outcome sample_frames "Rows" (some 3) none
