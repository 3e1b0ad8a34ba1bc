-- ===== src/Stream/Bridge/Tests.antt =====
-- Runs of the bridge on a reader with two batches, and the theorems at them. The data types are
-- numbers here, and the second reader's second batch does not fit.

use xorq_datafusion.Common.{
  ℕ, zero, suc, ◌+◌, ◌≤◌, ◌<◌, ◌≡◌, refl, ◌↔◌, true, false, Option, none, some, List, [], ◌∷◌, ◌++◌,
  arith, length, Result, ok, err, external, ◌==◌, ==_iff, String, ◌≢◌,
}
use xorq_datafusion.Arrow.{IsDataType, Field, SchemaRef, RecordBatch}
use xorq_datafusion.Stream.Tokio.{counting, queueing}
use xorq_datafusion.Stream.Credit.{ReadAhead, on_demand, buffered, speculated, speculation_budget}
use xorq_datafusion.Stream.Schema.{check_batch_schema, check_batch_schema-LinesUp, LinesUp}
use xorq_datafusion.Stream.Bridge.{
  Scan, finished, produce, polls, drops, Action, spawn_channel_stream, step, run, poll_next,
  pending,
}
use xorq_datafusion.Stream.Lazy.{fresh, ◌⟶*◌}
use xorq_datafusion.Stream.Bridge.Refinement.{observed, run-refines}
use xorq_datafusion.Stream.Bridge.Typed.{AllFit, AllShare, delivered-AllFit}
use xorq_datafusion.Stream.Bridge.Order.{emit, emitted, run-emitted}
use xorq_datafusion.Stream.Bridge.Credits.{pulls-le-delivered, budget_conserved}
use xorq_datafusion.Stream.Bridge.Contract.{
  accepted, EndsWithin, pull_again-accepted, ended-emitted,
}
use xorq_datafusion.Stream.Bridge.Progress.{produce_steps, poll_next-ne-pending}
use xorq_datafusion.Stream.Bridge.Cancel.{drops-ends}

instance abbrev numbered : IsDataType ℕ
numbered = record { beq = ◌==◌; display = λ n. "type"; beq_iff = ==_iff }

abbrev column : String → ℕ → Field ℕ
column n t = record { name = n; data_type = t; nullable = true }

abbrev table : SchemaRef ℕ
table = record { address = 0; fields = column "a" 1 ∷ column "b" 2 ∷ [] }

abbrev elsewhere : SchemaRef ℕ
elsewhere = record { address = 1; fields = column "a" 1 ∷ column "b" 2 ∷ [] }

abbrev drifted : SchemaRef ℕ
drifted = record { address = 2; fields = column "a" 1 ∷ column "b" 3 ∷ [] }

abbrev batch : SchemaRef ℕ → RecordBatch ℕ
batch s = record { schema_ref = s; rows = 5 }

abbrev two_batches : ℕ → Option (Result (RecordBatch ℕ))
two_batches zero = some (ok (batch table))
two_batches (suc zero) = some (ok (batch elsewhere))
two_batches (suc (suc n)) = none

abbrev drifting : ℕ → Option (Result (RecordBatch ℕ))
drifting zero = some (ok (batch table))
drifting (suc zero) = some (ok (batch drifted))
drifting (suc (suc n)) = some (err (external "never asked for"))

abbrev scan_of : ReadAhead → (ℕ → Option (Result (RecordBatch ℕ))) → Scan ℕ
scan_of mode pull = record {
  types = numbered;
  tokio = counting;
  mpsc = queueing 8;
  schema = table;
  read_ahead = mode;
  pull = pull;
}

abbrev lazy : Scan ℕ
lazy = scan_of on_demand two_batches

abbrev eager : Scan ℕ
eager = scan_of buffered two_batches

abbrev bad : Scan ℕ
bad = scan_of buffered drifting

-- The consumer takes one batch; the producer has the chance to go on.
abbrev take_one : List Action
take_one = polls ∷ produce ∷ produce ∷ produce ∷ produce ∷ produce ∷ polls ∷ produce ∷ produce ∷ []

abbrev many : List Action
many =
    polls ∷ produce ∷ produce ∷ produce ∷ produce ∷ produce ∷ produce ∷ produce ∷ produce ∷ produce
    ∷ produce ∷ polls ∷ polls ∷ []

limit_one : (run lazy take_one (spawn_channel_stream lazy)).pulls ≡ 1
unfolding run step spawn_channel_stream poll_next check_batch_schema speculated
limit_one = refl

read_ahead : (run eager take_one (spawn_channel_stream eager)).pulls ≡ 2
unfolding run step spawn_channel_stream poll_next check_batch_schema speculated
read_ahead = refl

check_batch_schema-LinesUp_example :
    (check_batch_schema table (batch elsewhere) ≡ ok tt) ↔ LinesUp table.fields elsewhere.fields
check_batch_schema-LinesUp_example =
    check_batch_schema-LinesUp table (batch elsewhere) (λ e. absurd (omega arith))

run-emitted_example :
    let s = run eager take_one (spawn_channel_stream eager) in
    s.delivered ++ s.channel.queued ≡ emitted eager s.pulls
run-emitted_example = run-emitted eager take_one

pulls-le-delivered_example :
    let s = run lazy take_one (spawn_channel_stream lazy) in
    (s.pulls ≤ length s.delivered + 1) × (s.requested ≡ false → s.pulls ≤ length s.delivered)
pulls-le-delivered_example = pulls-le-delivered lazy take_one refl

budget_conserved_example :
    let s = run eager take_one (spawn_channel_stream eager) in
    (s.budget + speculated s.credits + s.borrowed ≡ speculation_budget)
    × (s.phase ≡ finished → speculated s.credits ≡ 0)
budget_conserved_example = budget_conserved eager take_one

two_pulls : 1 < (run bad many (spawn_channel_stream bad)).pulls
unfolding run step spawn_channel_stream poll_next check_batch_schema speculated
two_pulls = omega arith

pull_again-accepted_example : accepted bad 0 ≡ true
pull_again-accepted_example = pull_again-accepted bad many 0 two_pulls

ended-emitted_example :
    let s = run bad many (spawn_channel_stream bad) in
    (s.delivered ≡ emitted bad s.pulls) × EndsWithin bad s.pulls
unfolding run step spawn_channel_stream poll_next check_batch_schema speculated
ended-emitted_example = ended-emitted bad many refl refl

poll_next-ne-pending_example :
    let s = run lazy (polls ∷ []) (spawn_channel_stream lazy) in
    (n : ℕ) × (n ≤ 3) × ((poll_next lazy (produce_steps lazy n s)).1 ≢ pending)
unfolding run step spawn_channel_stream poll_next check_batch_schema speculated
poll_next-ne-pending_example = poll_next-ne-pending lazy (polls ∷ []) refl refl refl

drops-ends_example :
    let s = run eager take_one (spawn_channel_stream eager) in
    ((as' : List Action) → (run eager as' (step eager drops s)).pulls ≤ s.pulls + 1)
    × ((run eager (produce ∷ produce ∷ produce ∷ []) (step eager drops s)).phase ≡ finished)
unfolding run step spawn_channel_stream poll_next check_batch_schema speculated
drops-ends_example = drops-ends eager (run eager take_one (spawn_channel_stream eager)) refl

run-refines_example :
    ◌⟶*◌
      (λ n. emit eager (two_batches n))
      (accepted eager)
      8
      true
      fresh
      (observed eager (run eager take_one (spawn_channel_stream eager)))
run-refines_example = run-refines eager take_one

one_allocation : AllShare bad
one_allocation zero b h e = ground arith
one_allocation (suc zero) b h e = absurd (ground arith)
one_allocation (suc (suc n)) b h e = absurd (ground arith)

delivered-AllFit_example : AllFit bad (run bad many (spawn_channel_stream bad)).delivered
delivered-AllFit_example = delivered-AllFit bad one_allocation many
