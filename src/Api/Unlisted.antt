-- ===== src/Api/Unlisted.antt =====
-- services/api/handlers_machines.go: what becomes of handleListMachines by the order of the query of
-- fetchRecentRuns.
use goosed.Support.{ℕ, ◌≡◌, refl, List, ◌∷◌, map, any}
use goosed.Support.Text.{lit, text_eq}
use goosed.Support.Results.{Result, ok, err}
use goosed.Gorm.Table.{DbError, record_not_found, failure}
use goosed.Api.Machines.{
  FactRow, RunsTable, runs_columns, runs_order, fetch_recent_runs, with_runs, with_facts,
  handle_list_machines,
}

order_undefined :
    (runs : RunsTable) (ids : List ℕ)
    → runs.columns ≡ runs_columns
    → (n : ℕ) × (runs.find ids runs_order ≡ err (failure n))
unfolding text_eq any
order_undefined runs ids c = runs.find_undefined ids runs_order (lit "created_at") refl (rw c refl)

fetch_recent_runs-fails :
    (runs : RunsTable) (id : ℕ) (ids : List ℕ)
    → runs.columns ≡ runs_columns
    → (n : ℕ) × (fetch_recent_runs (id ∷ ids) 5 runs ≡ err (failure n))
unfolding fetch_recent_runs
fetch_recent_runs-fails runs id ids c =
    let (n, e) = order_undefined runs (id ∷ ids) c in (n, rw e refl)

module _ {V M : Type 0} (id_of : M → ℕ) where
  -- Where the table runs has the columns of the migration, handleListMachines answers with an error
  -- as soon as there is a machine, whatever the facts and the runs are: the query of fetchRecentRuns
  -- orders by a column that the table does not have.
  pub handle_list_machines_lem :
      (m : M) (models : List M) (facts : Result DbError (List (FactRow V))) (runs : RunsTable)
      → runs.columns ≡ runs_columns
      → (n : ℕ) × (handle_list_machines id_of (ok (m ∷ models)) facts runs ≡ err (failure n))
  unfolding handle_list_machines with_facts with_runs
  handle_list_machines_lem m models facts runs c =
      let (n, e) = fetch_recent_runs-fails runs (id_of m) (map id_of models) c in go n e facts
    where
      go :
          (n : ℕ)
          → fetch_recent_runs (id_of m ∷ map id_of models) 5 runs ≡ err (failure n)
          → (facts : Result DbError (List (FactRow V)))
          → (k : ℕ) × (handle_list_machines id_of (ok (m ∷ models)) facts runs ≡ err (failure k))
      go n e (ok rows) = (n, rw e refl)
      go n e (err record_not_found) = (n, rw e refl)
      go n e (err (failure k)) = (k, refl)
