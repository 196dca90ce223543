-- ===== src/Gorm/Transaction.antt =====
-- A table with transactions, as an interface. What is written between `begin` and `commit` is
-- lost by a rollback; a commit that fails rolls back.
use goosed.Support.{◌≡◌, refl}
use goosed.Support.Results.{Result, ok, err, ok_ne_err}
use goosed.Gorm.Table.{DbError, Table}
use goosed.Gorm.InMemory.{in_memory}

pub record Transactions {Row : Type 0} (table : Table Row) : Type 0 where
  pub begin : table.State → Result DbError (Unit {0}) × table.State
  -- The database before the transaction, and within it.
  pub commit : table.State → table.State → Result DbError (Unit {0}) × table.State
  pub rollback : table.State → table.State → table.State
  pub rows-begin : (s : table.State) → table.rows (begin s).1 ≡ table.rows s
  pub commit_ok :
      (s t : table.State) (u : Unit {0})
      → (commit s t).0 ≡ ok u
      → table.rows (commit s t).1 ≡ table.rows t
  pub commit_err :
      (s t : table.State) (e : DbError)
      → (commit s t).0 ≡ err e
      → table.rows (commit s t).1 ≡ table.rows s
  pub rows-rollback : (s t : table.State) → table.rows (rollback s t) ≡ table.rows s

abbrev pub in_memory_transactions : {Row : Type 0} → Transactions (in_memory {Row = Row})
in_memory_transactions = record {
  begin = λ s. (ok tt, s);
  commit = λ s t. (ok tt, t);
  rollback = λ s t. s;
  rows-begin = λ s. refl;
  commit_ok = λ s t u h. refl;
  commit_err = λ s t e h. ok_ne_err h;
  rows-rollback = λ s t. refl;
}
