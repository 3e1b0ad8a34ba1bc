-- ===== src/ForeignTables.antt =====
-- ffi_table_provider.rs: `HostedFfiTableProvider`, whose codec holds its task context weakly. A
-- reference is an address of the heap, and what a weak one leads to is there as long as its cell
-- has a strong reference. What the foreign side does with the task context is not read here: a call
-- of it begins by upgrading the reference of the codec.
pub mod Serving
mod Tests
use xorq_datafusion.Common.{
  ℕ, suc, Bool, true, false, Option, none, some, List, [], ◌∷◌, ◌++◌, ◌-◌, ◌==◌, if◌then◌else◌,
}

-- `HostTaskContext`, of which this is the fallback, and `SessionTaskContext`.
pub data TaskContextProvider (C : Type 0) : Type 0 where
  host_task_context : C → TaskContextProvider C
  session_task_context : C → TaskContextProvider C

-- What an `Arc` points to, and how many hold it.
pub record Cell (C : Type 0) : Type 0 where
  pub provider : TaskContextProvider C
  pub strong : ℕ

-- The provider imported from the other library, with the weak reference of its codec; one that
-- turned out to be local uses no codec.
pub data Inner : Type 0 where
  foreign_table : (codec : ℕ) → Inner
  local_table : Inner

pub record HostedFfiTableProvider : Type 0 where
  pub inner : Inner
  pub task_ctx : ℕ

-- The live `SessionContext` with its task context of now, if there is one, and the heap. `served`
-- is what the checks of filters were served by their codec, where `none` is a reference whose
-- target went out of scope.
pub record World (C : Type 0) : Type 0 where
  pub session : Option C
  pub heap : ℕ → Option (Cell C)
  pub next : ℕ
  pub served : List (Option C)

-- What happens: the session has another task context, or is gone; filters are checked; a session
-- begins a scan or an insert, with its task context; and the call for which the task context at an
-- address was made is over.
pub data Action (C : Type 0) : Type 0 where
  session_changes : C → Action C
  session_drops : Action C
  checks : Action C
  begins : C → Action C
  ends : ℕ → Action C

-- The codec of a foreign table is bound to another task context.
rebound : ℕ → Inner → Inner
rebound a (foreign_table codec) = foreign_table a
rebound a local_table = local_table

module _ {C : Type 0} where
  store : ℕ → Option (Cell C) → World C → World C
  store a cell w = record w { heap = λ b. if b == a then cell else w.heap b }

  -- `Arc::new`
  alloc : TaskContextProvider C → World C → ℕ × World C
  unfolding store
  alloc p w = (
    w.next,
    record (store w.next (some (record { provider = p; strong = 1 })) w) { next = suc w.next },
  )

  -- A strong reference is dropped, and with the last one its target.
  drop_at : ℕ → Cell C → World C → World C
  unfolding store
  drop_at a cell w =
      store a (if cell.strong == 1 then none else some (record cell { strong = cell.strong - 1 })) w

  pub drop_arc : ℕ → World C → World C
  unfolding drop_at
  drop_arc a w = elim (w.heap a) [ none ↦ w | some cell ↦ drop_at a cell w ]

  -- `task_ctx`: a host's follows the live session and remembers what it serves.
  unfoldable pub task_ctx : Option C → TaskContextProvider C → C × TaskContextProvider C
  task_ctx (some ctx) (host_task_context fallback) = (ctx, host_task_context ctx)
  task_ctx none (host_task_context fallback) = (fallback, host_task_context fallback)
  task_ctx session (session_task_context ctx) = (ctx, session_task_context ctx)

  -- The foreign side upgrades the reference of a codec and asks for its task context.
  pub read_codec : ℕ → World C → Option C × World C
  unfolding task_ctx store
  read_codec a w = elim (w.heap a) [
    | none ↦ (none, w)
    | some cell ↦
        let (ctx, p) = task_ctx w.session cell.provider in
        (some ctx, store a (some (record cell { provider = p })) w)
  ]

  -- `HostedFfiTableProvider::new`, for a session with its task context: the table owns the task
  -- context that the codec of a foreign table refers to.
  pub hosted : (is_foreign : Bool) → C → World C → HostedFfiTableProvider × World C
  unfolding alloc
  hosted is_foreign ctx w =
      let (a, w') = alloc (host_task_context ctx) w in
      (record { inner = if is_foreign then foreign_table a else local_table; task_ctx = a }, w')

  -- `bound_for`: the task context that the caller keeps, and the provider bound to it.
  pub bound_for : HostedFfiTableProvider → C → World C → (ℕ × Inner) × World C
  unfolding alloc rebound
  bound_for table ctx w =
      let (a, w') = alloc (session_task_context ctx) w in ((a, rebound a table.inner), w')

  -- `supports_filters_pushdown` of the inner provider.
  check_inner : Inner → World C → World C
  unfolding read_codec
  check_inner (foreign_table codec) w =
      let (ctx, w') = read_codec codec w in record w' { served = w'.served ++ ctx ∷ [] }
  check_inner local_table w = w

  -- A `scan` or an `insert_into` is over, and its `_task_ctx` goes. What the table owns stays.
  end_call : HostedFfiTableProvider → ℕ → World C → World C
  unfolding drop_arc
  end_call table a w = if a == table.task_ctx then w else drop_arc a w

  pub step : HostedFfiTableProvider → Action C → World C → World C
  unfolding check_inner bound_for end_call
  step table (session_changes ctx) w = record w {
    session = elim w.session [ none ↦ none | some _ ↦ some ctx ];
  }
  step table session_drops w = record w { session = none }
  step table checks w = check_inner table.inner w
  step table (begins ctx) w = (bound_for table ctx w).1
  step table (ends a) w = end_call table a w

  pub run : HostedFfiTableProvider → List (Action C) → World C → World C
  run table [] w = w
  run table (a ∷ as') w = run table as' (step table a w)

-- A session with its task context, before a table is registered in it.
abbrev pub opened : {C : Type 0} → C → World C
opened ctx = record { session = some ctx; heap = λ a. none; next = 0; served = [] }
