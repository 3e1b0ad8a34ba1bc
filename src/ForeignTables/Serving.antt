-- ===== src/ForeignTables/Serving.antt =====
-- Which task context the codec of a foreign table is served, and for how long.
use xorq_datafusion.Common.{
  ℕ, ◌<◌, ◌≡◌, refl, sym, ◌∙◌, ap, true, Option, none, some, List, [], ◌∷◌, ◌++◌, arith,
  Option-cases, inl, inr,
}
use mathlib.Core.List.{append_assoc, append-nil}
use xorq_datafusion.ForeignTables.{
  TaskContextProvider, host_task_context, session_task_context, Cell, Inner, foreign_table,
  HostedFfiTableProvider, World, Action, session_changes, session_drops, checks, begins, ends,
  store, alloc, drop_at, drop_arc, task_ctx, read_codec, hosted, rebound, bound_for, check_inner,
  end_call, step, run, opened,
}

abbrev table_at : ℕ → HostedFfiTableProvider
table_at a = record { inner = foreign_table a; task_ctx = a }

module _ {C : Type 0} where
  -- What the checks of a history are to be served: the task context of the live session, or else
  -- the one of the last check before it was gone, or of the registration.
  unfoldable pub expected : Option C → C → List (Action C) → List (Option C)
  expected session last [] = []
  expected session last (session_changes ctx ∷ as') = elim session [
    | none ↦ expected none last as'
    | some _ ↦ expected (some ctx) last as'
  ]
  expected session last (session_drops ∷ as') = expected none last as'
  expected (some ctx) last (checks ∷ as') = some ctx ∷ expected (some ctx) ctx as'
  expected none last (checks ∷ as') = some last ∷ expected none last as'
  expected session last (begins _ ∷ as') = expected session last as'
  expected session last (ends _ ∷ as') = expected session last as'

  abbrev owned : TaskContextProvider C → Cell C
  owned p = record { provider = p; strong = 1 }

  -- The table alone holds the task context of its codec, and remembers `last`.
  abbrev IsHosted : ℕ → C → World C → Type 0
  IsHosted a last w = (w.heap a ≡ some (owned (host_task_context last))) × (a < w.next)

  remembered : Option C → C → Action C → C
  remembered (some ctx) last checks = ctx
  remembered _ last _ = last

  step-IsHosted :
      (a : ℕ) (last : C) (action : Action C) (w : World C)
      → IsHosted a last w
      → IsHosted a (remembered w.session last action) (step (table_at a) action w)
  unfolding step check_inner read_codec task_ctx store bound_for alloc end_call drop_arc drop_at
      remembered
  step-IsHosted a last (session_changes ctx) w h = ground arith
  step-IsHosted a last session_drops w h = ground arith
  step-IsHosted a last checks w h = ground arith
  step-IsHosted a last (begins ctx) w h = ground arith
  step-IsHosted a last (ends b) w h = ground arith

  expected-step :
      (a : ℕ) (last : C) (action : Action C) (as' : List (Action C)) (w : World C)
      → IsHosted a last w
      → w.served ++ expected w.session last (action ∷ as')
        ≡ (step (table_at a) action w).served
          ++ expected (step (table_at a) action w).session (remembered w.session last action) as'
  unfolding step check_inner read_codec task_ctx store bound_for alloc end_call drop_arc drop_at
      remembered expected
  expected-step a last (session_changes ctx) as' w h = ground arith
  expected-step a last session_drops as' w h = ground arith
  expected-step a last checks as' w h = elim (Option-cases w.session) [
    | inl gone ↦ ground (arith, append_assoc w.served (some last ∷ []) (expected none last as'))
    | inr (ctx, live) ↦
        ground (arith, append_assoc w.served (some ctx ∷ []) (expected (some ctx) ctx as'))
  ]
  expected-step a last (begins ctx) as' w h = ground arith
  expected-step a last (ends b) as' w h = ground arith

  run-expected :
      (a : ℕ) (as' : List (Action C)) (last : C) (w : World C)
      → IsHosted a last w
      → (run (table_at a) as' w).served ≡ w.served ++ expected w.session last as'
  unfolding run expected
  run-expected a [] last w h = grind (arith, append-nil)
  run-expected a (action ∷ as') last w h =
      run-expected a as' (remembered w.session last action) (step (table_at a) action w)
        (step-IsHosted a last action w h)
      ∙ sym (expected-step a last action as' w h)

  -- Whatever happens once a foreign table is registered, its codec never goes out of scope: each
  -- check of filters is served the task context of the live session, or, once that is gone, the one
  -- of the last check before, or of the registration if there was none.
  pub run-served :
      (ctx : C) (as' : List (Action C)) (w : World C)
      → w.session ≡ some ctx
      → let (table, w') = hosted true ctx w in
        (run table as' w').served ≡ w.served ++ expected (some ctx) ctx as'
  unfolding hosted alloc store
  run-served ctx as' w live =
      let (table, w') = hosted true ctx w in
      run-expected w.next as' ctx w' (ground arith, ground arith)
      ∙ ap (λ s. w.served ++ expected s ctx as') live

  -- None of the actions ends the call for which an address was made.
  abbrev pub NotEnded : ℕ → List (Action C) → Type 0
  NotEnded a [] = Unit {0}
  NotEnded a (ends b ∷ as') = (¬ (b ≡ a)) × NotEnded a as'
  NotEnded a (session_changes _ ∷ as') = NotEnded a as'
  NotEnded a (session_drops ∷ as') = NotEnded a as'
  NotEnded a (checks ∷ as') = NotEnded a as'
  NotEnded a (begins _ ∷ as') = NotEnded a as'

  -- A call in flight at `b` holds the task context of the session that planned it.
  abbrev IsPlanned : ℕ → C → ℕ → World C → Type 0
  IsPlanned a planner b w =
      (w.heap b ≡ some (owned (session_task_context planner))) × (b < w.next) × (a < b)

  run-IsPlanned :
      (a : ℕ) (planner : C) (b : ℕ) (as' : List (Action C)) (w : World C)
      → NotEnded b as'
      → IsPlanned a planner b w
      → IsPlanned a planner b (run (table_at a) as' w)
  unfolding run step check_inner read_codec task_ctx store bound_for alloc end_call drop_arc drop_at
  run-IsPlanned a planner b [] w n h = h
  run-IsPlanned a planner b (session_changes ctx ∷ as') w n h =
      run-IsPlanned a planner b as' _ n (ground arith)
  run-IsPlanned a planner b (session_drops ∷ as') w n h =
      run-IsPlanned a planner b as' _ n (ground arith)
  run-IsPlanned a planner b (checks ∷ as') w n h = run-IsPlanned a planner b as' _ n (ground arith)
  run-IsPlanned a planner b (begins ctx ∷ as') w n h =
      run-IsPlanned a planner b as' _ n (ground arith)
  run-IsPlanned a planner b (ends c ∷ as') w n h =
      run-IsPlanned a planner b as' _ n.1 (ground arith)

  planned-served :
      (a : ℕ) (planner : C) (b : ℕ) (w : World C)
      → IsPlanned a planner b w
      → ((read_codec b w).0 ≡ some planner)
        × ((read_codec b (step (table_at a) (ends b) w)).0 ≡ none)
  unfolding step read_codec task_ctx store end_call drop_arc drop_at
  planned-served a planner b w h = (ground arith, ground arith)

  run-IsHosted :
      (a : ℕ) (as' : List (Action C)) (last : C) (w : World C)
      → IsHosted a last w
      → (last' : C) × IsHosted a last' (run (table_at a) as' w)
  unfolding run
  run-IsHosted a [] last w h = (last, h)
  run-IsHosted a (action ∷ as') last w h =
      run-IsHosted a as' (remembered w.session last action) (step (table_at a) action w)
        (step-IsHosted a last action w h)

  module _ (ctx planner : C) (before after : List (Action C)) (w : World C) where
    abbrev pub table : HostedFfiTableProvider
    table = (hosted true ctx w).0

    -- A call that a session plans after a history, and the world in which it begins.
    abbrev pub begun : (ℕ × Inner) × World C
    begun = bound_for table planner (run table before (hosted true ctx w).1)

    -- A scan or an insert that begins at any time is served the task context of the session that
    -- plans it as long as it is not over, whatever the host's session does and whatever other calls
    -- begin or end; once it is over, its codec is served none.
    pub bound_for-served :
        NotEnded begun.0.0 after
        → let now = run table after begun.1 in
          (begun.0.1 ≡ foreign_table begun.0.0)
          × ((read_codec begun.0.0 now).0 ≡ some planner)
          × ((read_codec begun.0.0 (step table (ends begun.0.0) now)).0 ≡ none)
    unfolding hosted bound_for alloc store rebound
    bound_for-served n =
        let now = run table after begun.1 in
        let (last, h) =
          run-IsHosted w.next before ctx (hosted true ctx w).1 (ground arith, ground arith) in
        let planned = run-IsPlanned w.next planner begun.0.0 after begun.1 n (ground arith) in
        let (live, over) = planned-served w.next planner begun.0.0 now planned in (refl, live, over)

  -- What an address of the heap leads to is held once, if it is there.
  holders : Option (Cell C) → ℕ
  holders none = 1
  holders (some cell) = cell.strong

  abbrev IsSingle : World C → Type 0
  IsSingle w = (b : ℕ) → holders (w.heap b) ≡ 1

  step-IsSingle :
      (a : ℕ) (action : Action C) (w : World C) → IsSingle w → IsSingle (step (table_at a) action w)
  unfolding step check_inner read_codec task_ctx store bound_for alloc end_call drop_arc drop_at
      holders
  step-IsSingle a (session_changes ctx) w h b = h b
  step-IsSingle a session_drops w h b = h b
  step-IsSingle a checks w h b = ground (arith, h a, h b)
  step-IsSingle a (begins ctx) w h b = ground (arith, h b)
  step-IsSingle a (ends c) w h b = ground (arith, h b, h c)

  run-IsSingle :
      (a : ℕ) (as' : List (Action C)) (w : World C) → IsSingle w → IsSingle (run (table_at a) as' w)
  unfolding run
  run-IsSingle a [] w h = h
  run-IsSingle a (action ∷ as') w h =
      run-IsSingle a as' (step (table_at a) action w) (step-IsSingle a action w h)

  single-released :
      (a b : ℕ) (w : World C)
      → IsSingle w
      → (drop_arc a (step (table_at a) (ends b) w)).heap b ≡ none
  unfolding step end_call drop_arc drop_at store holders
  single-released a b w h = ground (arith, h a, h b)

  -- No task context outlives its owner: after any history of a table, nothing is left at an address
  -- once the call at that address is over, if it was one, and the table is dropped.
  pub run-released :
      (ctx : C) (as' : List (Action C)) (b : ℕ)
      → let (table, w) = hosted true ctx (opened ctx) in
        (drop_arc table.task_ctx (step table (ends b) (run table as' w))).heap b ≡ none
  unfolding hosted alloc store holders
  run-released ctx as' b =
      let (table, w) = hosted true ctx (opened ctx) in
      single-released 0 b (run table as' w) (run-IsSingle 0 as' w (λ c. ground arith))
