-- ===== src/Sql/Schema/Lookup.antt =====
-- Which table a schema finds under a name, after any additions and removals.
use text.Mathlib.Text.{◌==◌ as str_eq}
use text.Mathlib.TextEquality.{eq_iff}
use xorq_datafusion.Common.{
  ◌≡◌, refl, ap, ◌∙◌, Option, none, some, List, [], ◌∷◌, ◌++◌, String, if◌then◌else◌, arith,
}
use xorq_datafusion.Sql.Schema.{
  SqlTable, SqlSchema, new, table_by_name, first_named, add_table, drop_table, retain_others,
}

pub data Change : Type 0 where
  add : SqlTable → Change
  drop : (table_name : String) → Change

-- `add_table` and `drop_table`, one after the other
abbrev pub apply : SqlSchema → List Change → SqlSchema
apply s [] = s
apply s (add t ∷ changes) = apply (add_table s t) changes
apply s (drop name ∷ changes) = apply (drop_table s name) changes

-- The promise for one name: the tables of that name queue up, and a removal of it empties the
-- queue.
abbrev pub queue : String → List SqlTable → List Change → List SqlTable
queue name ts [] = ts
queue name ts (add t ∷ changes) =
    queue name (if str_eq t.name name then ts ++ t ∷ [] else ts) changes
queue name ts (drop dropped ∷ changes) = queue name (if str_eq dropped name then [] else ts) changes

abbrev pub head? : List SqlTable → Option SqlTable
head? [] = none
head? (t ∷ ts) = some t

-- The tables of a name, in the order in which they were added.
abbrev named : String → List SqlTable → List SqlTable
named name [] = []
named name (t ∷ ts) = if str_eq t.name name then t ∷ named name ts else named name ts

first_named-head :
    (name : String) (ts : List SqlTable) → first_named name ts ≡ head? (named name ts)
unfolding first_named
first_named-head name [] = refl
first_named-head name (t ∷ ts) = ground (arith, first_named-head name ts)

named-append :
    (name : String) (ts : List SqlTable) (t : SqlTable)
    → named name (ts ++ t ∷ [])
      ≡ (if str_eq t.name name then named name ts ++ t ∷ [] else named name ts)
named-append name [] t = ground arith
named-append name (u ∷ ts) t = ground (arith, named-append name ts t)

named-retain_others :
    (name dropped : String) (ts : List SqlTable)
    → named name (retain_others dropped ts) ≡ (if str_eq dropped name then [] else named name ts)
unfolding retain_others
named-retain_others name dropped [] = ground arith
named-retain_others name dropped (t ∷ ts) = ground (
  arith,
  named-retain_others name dropped ts,
  eq_iff t.name dropped,
  eq_iff dropped name,
  eq_iff t.name name,
)

apply-named :
    (name : String) (changes : List Change) (s : SqlSchema)
    → named name (apply s changes).tables ≡ queue name (named name s.tables) changes
unfolding add_table drop_table
apply-named name [] s = refl
apply-named name (add t ∷ changes) s =
    apply-named name changes (add_table s t)
    ∙ ap (λ ts. queue name ts changes) (named-append name s.tables t)
apply-named name (drop dropped ∷ changes) s =
    apply-named name changes (drop_table s dropped)
    ∙ ap (λ ts. queue name ts changes) (named-retain_others name dropped s.tables)

-- After any additions and removals, a schema that was new finds under a name the oldest table of
-- that name that was added since the name was last removed, and none if there is none.
pub table_by_name-queue :
    (schema_name name : String) (changes : List Change)
    → table_by_name (apply (new schema_name) changes) name ≡ head? (queue name [] changes)
unfolding table_by_name new
table_by_name-queue schema_name name changes =
    first_named-head name (apply (new schema_name) changes).tables
    ∙ ap head? (apply-named name changes (new schema_name))
