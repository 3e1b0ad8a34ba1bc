-- ===== src/Stream/Schema.antt =====
-- utils.rs: `check_batch_schema`, the test that a batch lines up with the plan's schema.
use Prim.Native.String.{◌++◌ as append}
use text.Mathlib.Text.{◌==◌ as str_eq}
use text.Mathlib.TextEquality.{eq_iff}
use xorq_datafusion.Common.{
  ◌≡◌, refl, ◌↔◌, inl, inr, Bool, true, ◌&&◌, ◌||◌, List, [], ◌∷◌, map, String, arith, length, ◌==◌,
  if◌then◌else◌, Result, ok, err, execution_error, Bool-cases, ==_iff, subst,
}
use xorq_datafusion.Arrow.{IsDataType, Field, SchemaRef, RecordBatch}

-- `Vec<String>::join(sep)`
pub join : String → List String → String
join sep [] = ""
join sep (s ∷ []) = s
join sep (s ∷ t ∷ ts) = append s (append sep (join sep (t ∷ ts)))

module _ {T : Type 0} ⦃d : IsDataType T⦄ where
  pub same_field : Field T → Field T → Bool
  same_field want got = str_eq want.name got.name && d.beq want.data_type got.data_type

  -- `iter().zip(..).all(..)`: the walk ends with the shorter list.
  pub zip_all : List (Field T) → List (Field T) → Bool
  zip_all (want ∷ ws) (got ∷ gs) = same_field want got && zip_all ws gs
  zip_all [] gs = true
  zip_all ws [] = true

  pub describe : List (Field T) → String
  unfolding join
  describe fs = join ", " (map (λ f. append f.name (append ": " (d.display f.data_type))) fs)

  unfoldable pub check_batch_schema : SchemaRef T → RecordBatch T → Result (Unit {0})
  unfolding zip_all same_field describe
  check_batch_schema schema batch =
      let actual = batch.schema_ref in
      if schema.address == actual.address
        || (length schema.fields == length actual.fields && zip_all schema.fields actual.fields)
      then ok tt
      else err (
          execution_error (
            append "reader produced a batch that does not match the table schema: expected [" (
              append (describe schema.fields)
                (append "], got [" (append (describe actual.fields) "]")))))

  -- The columns line up: as many, and each pair has one name and one type. Nullability may differ.
  abbrev pub LinesUp : List (Field T) → List (Field T) → Type 0
  LinesUp [] [] = Unit
  LinesUp [] (g ∷ gs) = ⊥
  LinesUp (w ∷ ws) [] = ⊥
  LinesUp (w ∷ ws) (g ∷ gs) = (w.name ≡ g.name) × (w.data_type ≡ g.data_type) × LinesUp ws gs

  zip_all-LinesUp :
      (ws gs : List (Field T)) → ((length ws == length gs && zip_all ws gs) ≡ true) ↔ LinesUp ws gs
  unfolding zip_all same_field
  zip_all-LinesUp [] [] = (λ h. tt, λ h. refl)
  zip_all-LinesUp [] (g ∷ gs) = (λ h. ground arith, λ h. absurd h)
  zip_all-LinesUp (w ∷ ws) [] = (λ h. ground arith, λ h. absurd h)
  zip_all-LinesUp (w ∷ ws) (g ∷ gs) =
      let (there, back) = zip_all-LinesUp ws gs in
      let types = d.beq_iff w.data_type g.data_type in
      (
        λ h. ground (arith, there, types, eq_iff w.name g.name),
        λ h. ground (arith, back, types, eq_iff w.name g.name),
      )

  -- Two references to one allocation see the same fields.
  abbrev pub Shared : SchemaRef T → SchemaRef T → Type 0
  Shared s t = s.address ≡ t.address → s.fields ≡ t.fields

  LinesUp-refl : (fs : List (Field T)) → LinesUp fs fs
  LinesUp-refl [] = tt
  LinesUp-refl (f ∷ fs) = (refl, refl, LinesUp-refl fs)

  -- The check passes exactly on the batches whose columns line up with the schema, the shortcut by
  -- pointer included, if references to one allocation see the same fields.
  pub check_batch_schema-LinesUp :
      (schema : SchemaRef T) (batch : RecordBatch T)
      → Shared schema batch.schema_ref
      → (check_batch_schema schema batch ≡ ok tt) ↔ LinesUp schema.fields batch.schema_ref.fields
  unfolding check_batch_schema
  check_batch_schema-LinesUp schema batch shared =
      elim (Bool-cases (schema.address == batch.schema_ref.address)) [
        | inl same ↦ (
          λ _.
              subst (λ fs. LinesUp schema.fields fs) (shared ((==_iff _ _).0 same))
                (LinesUp-refl schema.fields),
          λ _. ground arith,
        )
        | inr other ↦
            let (there, back) = zip_all-LinesUp schema.fields batch.schema_ref.fields in
            (λ h. there (ground arith), λ h. ground (arith, back h))
      ]
