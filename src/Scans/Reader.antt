-- ===== src/Scans/Reader.antt =====
-- A reader that opens its iterator at the first pull, as the closures of the three scans do, and
-- what it yields if it is pulled again only after a batch.
use xorq_datafusion.Common.{
  ℕ, zero, suc, ◌≡◌, Option, some, arith, Result, ok, err, Error, ◌∙◌, ap, Result-cases, inl, inr,
}

-- The outcome of call `n` of a closure, from a state of what it owns.
unfoldable pub nth_call : {S R : Type 0} → (S → Option R × S) → S → ℕ → Option R
nth_call f s zero = (f s).0
nth_call f s (suc n) = nth_call f (f s).1 n

-- What a reader yields: the error of its opening, or the outcomes of the iterator that was opened.
unfoldable pub planned :
    {I B : Type 0} → (I → Option (Result B) × I) → Result I → ℕ → Option (Result B)
planned next (err e) n = some (err e)
planned next (ok it) n = nth_call next it n

-- A closure over a state in `S` that opens an iterator in `I`: once it is open, the closure is its
-- `next`, and the first call opens it.
pub record Reader (S I B : Type 0) : Type 0 where
  pub pull : S → Option (Result B) × S
  pub next : I → Option (Result B) × I
  pub start : S
  pub opened : Result I
  pub with_iter : I → S
  pub running : (it : I) → pull (with_iter it) ≡ ((next it).0, with_iter (next it).1)
  pub opens : (it : I) → opened ≡ ok it → pull start ≡ ((next it).0, with_iter (next it).1)
  pub fails : (e : Error) → opened ≡ err e → (pull start).0 ≡ some (err e)

-- Each of the first `n` calls returned a batch.
abbrev pub AllBatches : {B : Type 0} → (ℕ → Option (Result B)) → ℕ → Type 0
AllBatches {B} calls zero = Unit {0}
AllBatches {B} calls (suc n) = AllBatches calls n × ((b : B) × (calls n ≡ some (ok b)))

AllBatches-first :
    {B : Type 0} (calls : ℕ → Option (Result B)) (n : ℕ)
    → AllBatches calls (suc n)
    → (b : B) × (calls 0 ≡ some (ok b))
AllBatches-first calls zero h = h.1
AllBatches-first calls (suc n) h = AllBatches-first calls n h.0

module _ {S I B : Type 0} (reader : Reader S I B) where
  open reader use {pull, next, start, opened, with_iter, running, opens, fails}

  nth_call-with_iter : (it : I) (n : ℕ) → nth_call pull (with_iter it) n ≡ nth_call next it n
  unfolding nth_call
  nth_call-with_iter it zero = ap (λ r. r.0) (running it)
  nth_call-with_iter it (suc n) =
      ap (λ r. nth_call pull r.1 n) (running it) ∙ nth_call-with_iter (next it).1 n

  nth_call-opened : (it : I) → opened ≡ ok it → (n : ℕ) → nth_call pull start n ≡ nth_call next it n
  unfolding nth_call
  nth_call-opened it o zero = ap (λ r. r.0) (opens it o)
  nth_call-opened it o (suc n) =
      ap (λ r. nth_call pull r.1 n) (opens it o) ∙ nth_call-with_iter (next it).1 n

  failed :
      (e : Error)
      → opened ≡ err e
      → (n : ℕ) → AllBatches (nth_call pull start) n
      → nth_call pull start n ≡ some (err e)
  unfolding nth_call
  failed e o zero h = fails e o
  failed e o (suc n) h =
      let (b, first) = AllBatches-first (nth_call pull start) n h in
      absurd (ground (arith, fails e o))

  -- A reader that is pulled again only after a batch yields the outcomes of one iterator: it is
  -- opened once.
  pub nth_call-planned :
      (n : ℕ) → AllBatches (nth_call pull start) n → nth_call pull start n ≡ planned next opened n
  unfolding planned
  nth_call-planned n h = elim (Result-cases opened) [
    | inl (it, o) ↦ rw o (nth_call-opened it o n)
    | inr (e, o) ↦ rw o (failed e o n h)
  ]
