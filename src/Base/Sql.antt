-- ===== src/Base/Sql.antt =====
-- SQL's three-valued logic: `none` is NULL. A WHERE or a FILTER takes the rows that are TRUE.
use mathlib.Core.Bool.{Bool, true, false, not}
use mathlib.Core.Option.{Option, none, some}

abbrev pub sql_and : Option Bool → Option Bool → Option Bool
sql_and (some false) b = some false
sql_and (some true) b = b
sql_and none (some false) = some false
sql_and none _ = none

abbrev pub sql_not : Option Bool → Option Bool
sql_not none = none
sql_not (some b) = some (not b)

-- A comparison with NULL is NULL.
abbrev pub sql_test {ℓ} : {A : Type ℓ} → (A → Bool) → Option A → Option Bool
sql_test p none = none
sql_test p (some a) = some (p a)

abbrev pub is_true : Option Bool → Bool
is_true none = false
is_true (some b) = b
