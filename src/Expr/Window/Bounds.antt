-- ===== src/Expr/Window/Bounds.antt =====
-- What Python reads of a window frame that it built.
use xorq_datafusion.Common.{
  ℕ, ◌^◌, ◌<◌, ◌≡◌, refl, ◌⊎◌, Bool, true, false, Option, none, some, String, arith, Error, Result,
  ok, err, inl, ◌>>=◌, parse_u64_lt, sym, subst, to_ascii_lowercase,
}
use text.Mathlib.TextEquality.{eq_iff}
use xorq_datafusion.Common.Int.{pos, negsuc}
use xorq_datafusion.DataType.Types.{ScalarValue}
use xorq_datafusion.Expr.Window.{
  rows, range, groups, WindowFrameUnits, preceding, following, WindowFrameBound, current_row,
  WindowFrames, frame_units, frame_bound, new, get_lower_bound, get_upper_bound, get_offset,
  offset_of, scalar_offset, is_unbounded, is_preceding, is_following,
}

abbrev is_none : Option ℕ → Bool
is_none none = true
is_none (some n) = false

-- The names of the units, and the texts that name one: in any case of the letters.
abbrev pub unit_name : WindowFrameUnits → String
unit_name rows = "rows"
unit_name range = "range"
unit_name groups = "groups"

abbrev pub Names : String → WindowFrameUnits → Type 0
Names unit' u = to_ascii_lowercase unit' ≡ unit_name u

-- A text that `frame_units` takes names the unit it gives, and a text that it refuses names none.
frame_units-Names :
    (quoted : String → String) (unit' : String) (u : WindowFrameUnits)
    → frame_units quoted unit' ≡ ok u
    → Names unit' u
unfolding frame_units
frame_units-Names quoted unit' u h =
    let name = to_ascii_lowercase unit' in
    ground (arith, eq_iff name "rows", eq_iff name "range", eq_iff name "groups")

frame_units-err :
    (quoted : String → String) (unit' : String) (e : Error) (u : WindowFrameUnits)
    → frame_units quoted unit' ≡ err e
    → ¬ Names unit' u
unfolding frame_units
frame_units-err quoted unit' e rows h n = ground (arith, eq_iff (to_ascii_lowercase unit') "rows")
frame_units-err quoted unit' e range h n = ground (arith, eq_iff (to_ascii_lowercase unit') "range")
frame_units-err quoted unit' e groups h n =
    ground (arith, eq_iff (to_ascii_lowercase unit') "groups")

-- What an i64 or a u64 holds fits in it.
abbrev pub InRange : ScalarValue → Type 0
InRange (ScalarValue.uint64 (some n)) = n < 2 ^ 64
InRange (ScalarValue.int64 (some (pos n))) = n < 2 ^ 63
InRange (ScalarValue.int64 (some (negsuc n))) = n < 2 ^ 63
InRange _ = Unit

module _ (frames : WindowFrames) where
  open frames use {
    WindowFrame, new_bounds, units, start_bound, end_bound, is_null, quoted, units-new_bounds,
    start_bound-new_bounds, end_bound-new_bounds, is_null-none, is_null-some,
  }

  -- A bound on one side, read back.
  abbrev pub Reads : (WindowFrameBound → Bool) → Option ℕ → WindowFrameBound → Type 0
  Reads on_side given b =
      (get_offset frames b ≡ ok given)
      × (is_unbounded frames b ≡ is_none given)
      × (on_side b ≡ true)

  abbrev pub Outcome : String → Option ℕ → Option ℕ → Result WindowFrame → Type 0
  Outcome unit' start end' (ok f) =
      Names unit' (units f)
      × Reads is_preceding start (get_lower_bound frames f)
      × Reads is_following end' (get_upper_bound frames f)
  Outcome unit' start end' (err e) =
      ((u : WindowFrameUnits) → ¬ Names unit' u)
      ⊎ (Names unit' groups × ((start ≡ none) ⊎ (end' ≡ none)))

  preceding-Reads :
      (u : WindowFrameUnits) (given : Option ℕ) (b : WindowFrameBound)
      → frame_bound frames preceding u given ≡ ok b
      → Reads is_preceding given b
  unfolding frame_bound get_offset scalar_offset offset_of is_unbounded is_preceding
  preceding-Reads rows none b h = ground (arith, is_null-none)
  preceding-Reads range none b h = ground (arith, is_null-none)
  preceding-Reads groups none b h = ground arith
  preceding-Reads u (some n) b h = ground (arith, is_null-some n)

  following-Reads :
      (u : WindowFrameUnits) (given : Option ℕ) (b : WindowFrameBound)
      → frame_bound frames following u given ≡ ok b
      → Reads is_following given b
  unfolding frame_bound get_offset scalar_offset offset_of is_unbounded is_following
  following-Reads rows none b h = ground (arith, is_null-none)
  following-Reads range none b h = ground (arith, is_null-none)
  following-Reads groups none b h = ground arith
  following-Reads u (some n) b h = ground (arith, is_null-some n)

  frame_bound-err :
      (side : ScalarValue → WindowFrameBound) (u : WindowFrameUnits) (given : Option ℕ) (e : Error)
      → frame_bound frames side u given ≡ err e
      → (u ≡ groups) × (given ≡ none)
  unfolding frame_bound
  frame_bound-err side rows none e h = ground arith
  frame_bound-err side range none e h = ground arith
  frame_bound-err side groups none e h = (refl, refl)
  frame_bound-err side u (some n) e h = ground arith

  -- The rest of `new` after each of its steps.
  module _ (unit' : String) (start end' : Option ℕ) (u : WindowFrameUnits)
      (named : Names unit' u) where
    after_start :
        (s : WindowFrameBound)
        → frame_bound frames preceding u start ≡ ok s
        → (r : Result WindowFrameBound) → frame_bound frames following u end' ≡ r
        → Outcome unit' start end' (r >>= (λ e. ok (new_bounds u s e)))
    unfolding get_lower_bound get_upper_bound
    after_start s low (err e) failed = ground (arith, frame_bound-err following u end' e failed)
    after_start s low (ok t) high = (
      subst (Names unit') (sym (units-new_bounds u s t)) named,
      subst (Reads is_preceding start) (sym (start_bound-new_bounds u s t))
          (preceding-Reads u start s low),
      subst (Reads is_following end') (sym (end_bound-new_bounds u s t))
          (following-Reads u end' t high),
    )

    after_units :
        (r : Result WindowFrameBound)
        → frame_bound frames preceding u start ≡ r
        → Outcome unit' start end'
            (r >>= (λ s. frame_bound frames following u end' >>= (λ e. ok (new_bounds u s e))))
    after_units (err e) failed = ground (arith, frame_bound-err preceding u start e failed)
    after_units (ok s) low = after_start s low (frame_bound frames following u end') refl

  -- A frame that is built has the unit that was named, in any case of its letters, and a lower
  -- bound before the current row and an upper bound behind it that are read back as they were
  -- given, without limit if they were not given. None is built only for a text that names no unit,
  -- or for groups with a bound that is not given.
  pub new-Outcome :
      (unit' : String) (start end' : Option ℕ)
      → Outcome unit' start end' (new frames unit' start end')
  unfolding new
  new-Outcome unit' start end' = after_name (frame_units quoted unit') refl
    where
      after_name :
          (r : Result WindowFrameUnits)
          → frame_units quoted unit' ≡ r
          → Outcome unit' start end' (
              r >>= (λ u.
                frame_bound frames preceding u start
                >>= (λ s. frame_bound frames following u end' >>= (λ e. ok (new_bounds u s e)))))
      after_name (err e) failed = inl (λ u. frame_units-err quoted unit' e u failed)
      after_name (ok u) named =
          after_units unit' start end' u (frame_units-Names quoted unit' u named)
            (frame_bound frames preceding u start) refl

  offset_of-lt :
      (v : ScalarValue) (n : ℕ) → InRange v → offset_of frames v ≡ ok (some n) → n < 2 ^ 64
  unfolding offset_of
  offset_of-lt (ScalarValue.utf8 (some s)) n r h = ground (arith, parse_u64_lt s n)
  offset_of-lt (ScalarValue.int64 (some (pos m))) n r h = ground arith
  offset_of-lt (ScalarValue.int64 (some (negsuc m))) n r h = ground arith
  offset_of-lt (ScalarValue.int64 none) n r h = ground arith
  offset_of-lt (ScalarValue.uint64 (some m)) n r h = ground arith
  offset_of-lt (ScalarValue.uint64 none) n r h = ground arith
  offset_of-lt _ n r h = ground arith

  scalar_offset-lt :
      (v : ScalarValue) (n : ℕ) → InRange v → scalar_offset frames v ≡ ok (some n) → n < 2 ^ 64
  unfolding scalar_offset
  scalar_offset-lt v n r h = ground (arith, offset_of-lt v n r)

  abbrev pub BoundInRange : WindowFrameBound → Type 0
  BoundInRange (preceding v) = InRange v
  BoundInRange (following v) = InRange v
  BoundInRange current_row = Unit

  -- The offset of a bound fits in 64 bits, also one that is read from a text or from a negative
  -- number, if a number in the bound is one of its type.
  pub get_offset-lt :
      (b : WindowFrameBound) (n : ℕ)
      → BoundInRange b
      → get_offset frames b ≡ ok (some n)
      → n < 2 ^ 64
  unfolding get_offset
  get_offset-lt (preceding v) n r h = scalar_offset-lt v n r h
  get_offset-lt (following v) n r h = scalar_offset-lt v n r h
  get_offset-lt current_row n r h = ground arith
