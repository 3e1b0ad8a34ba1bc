-- ===== src/Stream/Bridge/Typed.antt =====
-- The batches that the consumer gets have the columns of the plan's schema.
use xorq_datafusion.Common.{
  ℕ, zero, suc, ◌≡◌, refl, sym, subst, Option, none, some, List, [], ◌∷◌, ◌++◌, arith, Result, ok,
  err, Result-cases, inl, inr,
}
use xorq_datafusion.Arrow.{RecordBatch}
use xorq_datafusion.Stream.Schema.{check_batch_schema, check_batch_schema-LinesUp, LinesUp, Shared}
use xorq_datafusion.Stream.Bridge.{Scan, Action, spawn_channel_stream, run}
use xorq_datafusion.Stream.Bridge.Order.{emit, emitted, run-emitted}

module _ {T : Type 0} (scan : Scan T) where
  open scan use {types, schema, pull}

  -- Every batch among the messages has the columns of the schema, by name and type.
  abbrev pub AllFit : List (Result (RecordBatch T)) → Type 0
  AllFit [] = Unit {0}
  AllFit (err e ∷ rs) = AllFit rs
  AllFit (ok b ∷ rs) = LinesUp ⦃d = types⦄ schema.fields b.schema_ref.fields × AllFit rs

  AllFit-append :
      (rs qs : List (Result (RecordBatch T))) → AllFit rs → AllFit qs → AllFit (rs ++ qs)
  AllFit-append [] qs h k = k
  AllFit-append (err e ∷ rs) qs h k = AllFit-append rs qs h k
  AllFit-append (ok b ∷ rs) qs h k = (h.0, AllFit-append rs qs h.1 k)

  AllFit-prefix : (rs qs : List (Result (RecordBatch T))) → AllFit (rs ++ qs) → AllFit rs
  AllFit-prefix [] qs h = tt
  AllFit-prefix (err e ∷ rs) qs h = AllFit-prefix rs qs h
  AllFit-prefix (ok b ∷ rs) qs h = (h.0, AllFit-prefix rs qs h.1)

  -- The batches that the reader yields share the schema if they share its allocation.
  abbrev pub AllShare : Type 0
  AllShare =
      (n : ℕ) (b : RecordBatch T) → pull n ≡ some (ok b) → Shared ⦃d = types⦄ schema b.schema_ref

  module _ (shared : AllShare) where
    emit-AllFit : (n : ℕ) (r : Option (Result (RecordBatch T))) → pull n ≡ r → AllFit (emit scan r)
    unfolding emit
    emit-AllFit n none h = tt
    emit-AllFit n (some (err e)) h = tt
    emit-AllFit n (some (ok b)) h = elim (Result-cases (check_batch_schema ⦃d = types⦄ schema b)) [
      | inl (u, p) ↦
          let e : emit scan (some (ok b)) ≡ ok b ∷ [] = ground arith in
          subst AllFit (sym e)
            ((check_batch_schema-LinesUp ⦃d = types⦄ schema b (shared n b h)).0 p, tt)
      | inr (e, p) ↦
          let q : emit scan (some (ok b)) ≡ err e ∷ [] = ground arith in subst AllFit (sym q) tt
    ]

    emitted-AllFit : (n : ℕ) → AllFit (emitted scan n)
    unfolding emitted
    emitted-AllFit zero = tt
    emitted-AllFit (suc n) =
        AllFit-append (emitted scan n) (emit scan (pull n)) (emitted-AllFit n)
          (emit-AllFit n (pull n) refl)

    -- Whatever the reader yields and whatever the interleaving, a batch that the consumer gets has
    -- the columns of the plan's schema by name and type, if references to one allocation see the
    -- same fields among the schema and the batches of the reader.
    pub delivered-AllFit :
        (as' : List Action) → AllFit (run scan as' (spawn_channel_stream scan)).delivered
    delivered-AllFit as' =
        let s = run scan as' (spawn_channel_stream scan) in
        AllFit-prefix s.delivered (scan.mpsc.view s.channel).queued
          (subst AllFit (sym (run-emitted scan as')) (emitted-AllFit s.pulls))
