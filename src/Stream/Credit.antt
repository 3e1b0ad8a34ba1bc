-- ===== src/Stream/Credit.antt =====
-- utils.rs: the modes of read-ahead, the permission to pull, and the speculation budget.
use xorq_datafusion.Common.{ℕ, suc, Option, none, some, List, [], ◌∷◌}
use xorq_datafusion.Stream.Tokio.{Semaphores}

abbrev pub channel_capacity : ℕ
channel_capacity = 8

abbrev pub speculation_budget : ℕ
speculation_budget = 64

abbrev pub affine_thread_budget : ℕ
affine_thread_budget = 128

pub data ReadAhead : Type 0 where
  on_demand buffered : ReadAhead

-- A speculative credit holds a permit of the speculation budget.
pub data Credit : Type 0 where
  demanded speculative : Credit

-- The permits of the budget that a list of credits holds.
unfoldable pub speculated : List Credit → ℕ
speculated [] = 0
speculated (demanded ∷ cs) = speculated cs
speculated (speculative ∷ cs) = suc (speculated cs)

-- `try_speculate`, with the process-wide budget passed along.
unfoldable pub try_speculate :
    (tokio : Semaphores) → ReadAhead → tokio.Semaphore → Option (Credit × tokio.Semaphore)
try_speculate tokio on_demand budget = none
try_speculate tokio buffered budget = elim (tokio.try_acquire budget) [
  | none ↦ none
  | some rest ↦ some (speculative, rest)
]
