-- ===== src/Gorm/Keyed.antt =====
-- Create with OnConflict{DoNothing: true} on a table whose rows have a primary key, as an
-- interface: a row of the key that stands there stays, and nothing is written.
use goosed.Support.{ℕ, ◌≡◌, refl, List, [], ◌∷◌, ◌++◌, any, ◌==◌, if◌then◌else◌}
use goosed.Support.Results.{Result, ok, err, ok_ne_err}
use goosed.Gorm.Table.{DbError, Table}
use goosed.Gorm.InMemory.{in_memory}

module _ {Row : Type 0} where
  -- The rows after the statement.
  abbrev pub with_new : (Row → ℕ) → Row → List Row → List Row
  with_new key r rows = if any (λ x. key x == key r) rows then rows else rows ++ r ∷ []

  pub record Keyed (table : Table Row) (key : Row → ℕ) : Type 0 where
    pub create_new : Row → table.State → Result DbError (Unit {0}) × table.State
    pub create_new_ok :
        (r : Row) (s : table.State) (u : Unit {0})
        → (create_new r s).0 ≡ ok u
        → table.rows (create_new r s).1 ≡ with_new key r (table.rows s)
    pub create_new_err :
        (r : Row) (s : table.State) (e : DbError)
        → (create_new r s).0 ≡ err e
        → table.rows (create_new r s).1 ≡ table.rows s

  abbrev pub in_memory_keyed : (key : Row → ℕ) → Keyed (in_memory {Row = Row}) key
  in_memory_keyed key = record {
    create_new = λ r s. (ok tt, with_new key r s);
    create_new_ok = λ r s u h. refl;
    create_new_err = λ r s e h. ok_ne_err h;
  }
