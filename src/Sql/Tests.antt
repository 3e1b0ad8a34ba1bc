-- ===== src/Sql/Tests.antt =====
-- The theorem on the tables of a schema, at two tables of one name.
use xorq_datafusion.Common.{◌≡◌, ℕ, none, some, List, [], ◌∷◌}
use xorq_datafusion.Sql.Schema.{SqlTable, new, new_table, table_by_name}
use xorq_datafusion.Sql.Schema.Lookup.{Change, add, drop, apply, table_by_name-queue}

abbrev orders : ℕ → SqlTable
orders n = new_table "orders" [] n none

abbrev history : List Change
history = add (orders 1) ∷ drop "orders" ∷ add (orders 2) ∷ add (orders 3) ∷ drop "items" ∷ []

table_by_name-queue_example :
    table_by_name (apply (new "public") history) "orders" ≡ some (orders 2)
unfolding new_table
table_by_name-queue_example = table_by_name-queue "public" "orders" history
