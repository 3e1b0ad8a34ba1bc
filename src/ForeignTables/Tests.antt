-- ===== src/ForeignTables/Tests.antt =====
-- Runs of a foreign table, whose task contexts are numbers.
use xorq_datafusion.Common.{ℕ, ◌≡◌, refl, none, some, List, [], ◌∷◌, ◌++◌, arith, true}
use xorq_datafusion.ForeignTables.{
  Action, session_changes, session_drops, checks, begins, ends, World, foreign_table, hosted,
  bound_for, read_codec, alloc, check_inner, store, task_ctx, drop_arc, step, run, opened,
}
use xorq_datafusion.ForeignTables.Serving.{
  expected, run-served, table, begun, bound_for-served, run-released,
}

abbrev history : List (Action ℕ)
history =
    checks
    ∷ session_changes 6
    ∷ begins 9
    ∷ checks
    ∷ session_changes 7
    ∷ ends 1
    ∷ session_drops
    ∷ session_changes 8
    ∷ checks
    ∷ []

abbrev five : ℕ
five = 5

abbrev registered : World ℕ
registered = (hosted true five (opened 5)).1

run-served_example :
    (run (hosted true five (opened 5)).0 history registered).served
    ≡ [] ++ (some 5 ∷ some 6 ∷ some 6 ∷ [])
unfolding expected
run-served_example = run-served five history (opened 5) refl

bound_for-served_example :
    let call = begun 5 9 (checks ∷ []) history (opened 5) in
    let ffi = table 5 9 (checks ∷ []) history (opened 5) in
    let now = run ffi (checks ∷ session_drops ∷ begins 4 ∷ ends 2 ∷ []) call.1 in
    (call.0.1 ≡ foreign_table call.0.0)
    × ((read_codec call.0.0 now).0 ≡ some 9)
    × ((read_codec call.0.0 (step ffi (ends call.0.0) now)).0 ≡ none)
unfolding bound_for hosted alloc run step check_inner read_codec store task_ctx
bound_for-served_example =
    bound_for-served 5 9 (checks ∷ []) (checks ∷ session_drops ∷ begins 4 ∷ ends 2 ∷ []) (opened 5)
      ((λ e. ground arith), tt)

run-released_example :
    let (ffi, w) = hosted true five (opened 5) in
    (drop_arc ffi.task_ctx (step ffi (ends 1) (run ffi history w))).heap 1 ≡ none
run-released_example = run-released five history 1
