-- ===== src/Expr/Window.antt =====
-- expr/window.rs: the frame of a window, as Python builds it and reads it.
use Prim.Native.String.{◌++◌ as append}
use xorq_datafusion.Common.{
  ℕ, suc, ◌-◌, ◌^◌, ◌≡◌, Bool, true, false, Option, none, some, String, Result, ok, err,
  not_implemented, value_error, if◌then◌else◌, ◌>>=◌, to_ascii_lowercase, parse_u64,
}
use text.Mathlib.Text.{◌==◌ as str_eq}
use xorq_datafusion.Common.Int.{ℤ, pos, negsuc}
use xorq_datafusion.DataType.Types.{ScalarValue}
pub mod Bounds

pub data WindowFrameUnits : Type 0 where
  rows range groups : WindowFrameUnits

pub data WindowFrameBound : Type 0 where
  preceding following : ScalarValue → WindowFrameBound
  current_row : WindowFrameBound

-- DataFusion's window frames: `new_bounds` and the fields that the crate reads, and what it shows
-- in errors.
pub record WindowFrames : Type 1 where
  pub WindowFrame : Type 0
  pub new_bounds : WindowFrameUnits → WindowFrameBound → WindowFrameBound → WindowFrame
  pub units : WindowFrame → WindowFrameUnits
  pub start_bound : WindowFrame → WindowFrameBound
  pub end_bound : WindowFrame → WindowFrameBound
  pub is_null : ScalarValue → Bool
  pub quoted : String → String
  pub debug : WindowFrameUnits → String
  pub display : ScalarValue → String
  pub units-new_bounds :
      (u : WindowFrameUnits) (s e : WindowFrameBound) → units (new_bounds u s e) ≡ u
  pub start_bound-new_bounds :
      (u : WindowFrameUnits) (s e : WindowFrameBound) → start_bound (new_bounds u s e) ≡ s
  pub end_bound-new_bounds :
      (u : WindowFrameUnits) (s e : WindowFrameBound) → end_bound (new_bounds u s e) ≡ e
  pub is_null-none : is_null (ScalarValue.uint64 none) ≡ true
  pub is_null-some : (n : ℕ) → is_null (ScalarValue.uint64 (some n)) ≡ false

-- `n as u64` of an i64
abbrev pub as_u64 : ℤ → ℕ
as_u64 (pos n) = n
as_u64 (negsuc n) = 2 ^ 64 - suc n

abbrev as_u64? : Option ℤ → Option ℕ
as_u64? none = none
as_u64? (some n) = some (as_u64 n)

-- The unit that a text names, in any case of its letters.
unfoldable pub frame_units : (String → String) → String → Result WindowFrameUnits
frame_units quoted unit' =
    let units = to_ascii_lowercase unit' in
    if str_eq units "rows"
    then ok rows
    else if str_eq units "range"
    then ok range
    else if str_eq units "groups"
    then ok groups
    else err (not_implemented (quoted units))

module _ (frames : WindowFrames) where
  open frames use {
    WindowFrame, new_bounds, units, start_bound, end_bound, is_null, quoted, debug, display,
  }

  -- A bound that is not given has no limit, which groups do not allow.
  unfoldable pub frame_bound :
      (ScalarValue → WindowFrameBound) → WindowFrameUnits → Option ℕ → Result WindowFrameBound
  frame_bound side u (some n) = ok (side (ScalarValue.uint64 (some n)))
  frame_bound side rows none = ok (side (ScalarValue.uint64 none))
  frame_bound side range none = ok (side (ScalarValue.uint64 none))
  frame_bound side groups none = err (not_implemented (debug groups))

  -- `PyWindowFrame::new`
  unfoldable pub new : String → Option ℕ → Option ℕ → Result WindowFrame
  new unit' start end' = do
    u ← frame_units quoted unit'
    s ← frame_bound preceding u start
    e ← frame_bound following u end'
    ok (new_bounds u s e)

  unfoldable pub get_lower_bound : WindowFrame → WindowFrameBound
  get_lower_bound f = start_bound f

  unfoldable pub get_upper_bound : WindowFrame → WindowFrameBound
  get_upper_bound f = end_bound f

  -- What is not missing, by the kind of its value.
  offset_of : ScalarValue → Result (Option ℕ)
  offset_of (ScalarValue.uint64 v) = ok v
  offset_of (ScalarValue.int64 v) = ok (as_u64? v)
  offset_of (ScalarValue.utf8 (some s)) = elim (parse_u64 s) [
    | some n ↦ ok (some n)
    | none ↦ err (value_error (append "Unable to parse u64 from Utf8 value '" (append s "'")))
  ]
  offset_of x = err (value_error (append "Unexpected window frame bound: " (display x)))

  scalar_offset : ScalarValue → Result (Option ℕ)
  unfolding offset_of
  scalar_offset v = if is_null v then ok none else offset_of v

  unfoldable pub get_offset : WindowFrameBound → Result (Option ℕ)
  unfolding scalar_offset
  get_offset (preceding v) = scalar_offset v
  get_offset (following v) = scalar_offset v
  get_offset current_row = ok none

  unfoldable pub is_unbounded : WindowFrameBound → Bool
  is_unbounded (preceding v) = is_null v
  is_unbounded (following v) = is_null v
  is_unbounded current_row = false

unfoldable pub is_current_row : WindowFrameBound → Bool
is_current_row current_row = true
is_current_row _ = false

unfoldable pub is_preceding : WindowFrameBound → Bool
is_preceding (preceding v) = true
is_preceding _ = false

unfoldable pub is_following : WindowFrameBound → Bool
is_following (following v) = true
is_following _ = false
