-- ===== src/Api/Tests/Machines.antt =====
-- The list of machines at concrete inputs.
use goosed.Support.{
  Bool, true, false, ◌&&◌, ap, Bool-cases, inl, inr, arith, ℕ, ◌≡◌, refl, Option, none, some, List,
  [], ◌∷◌, any, nat_eq,
}
use goosed.Support.Text.{
  Text, lit, text_eq, text_eq_iff, trim_space, trim_left, trim_right, is_space, to_lower,
  lower_rune,
}
use goosed.Support.Maps.{lookup, insert}
use goosed.Support.Results.{Result, ok, err}
use goosed.Gorm.Table.{DbError, failure}
use goosed.Api.Machines.{
  RunRow, RunsTable, runs_columns, recent_of, is_one_of, MachineRun, to_run, latest_facts,
  collect_runs, insert_run, sort_runs, fetch_recent_runs, derive_machine_status, list_item,
  with_runs, with_facts, handle_list_machines,
}
use goosed.Api.Unlisted.{handle_list_machines_lem}

abbrev run_at : ℕ → Option ℕ → Text → RunRow
run_at id started status = record {
  id = id;
  machine_id = some 7;
  blueprint_id = none;
  status = status;
  started_at = started;
  finished_at = none;
  logs = [];
}

abbrev test_rows : List RunRow
test_rows =
    run_at 3 (some 30) (lit "Failed")
    ∷ run_at 2 (some 20) (lit "success")
    ∷ run_at 1 none (lit "queued")
    ∷ []

abbrev test_runs : List MachineRun
test_runs =
    to_run (run_at 3 (some 30) (lit "Failed")) ∷ to_run (run_at 2 (some 20) (lit "success")) ∷ []

recent_run : recent_of 2 (ok test_rows) ≡ ok ((7, test_runs) ∷ [])
unfolding collect_runs sort_runs insert_run lookup insert
recent_run = refl

status_run : derive_machine_status {V = Text} none test_runs ≡ lit "error"
unfolding derive_machine_status trim_space trim_left trim_right is_space to_lower lower_rune text_eq
    any
status_run = refl

-- A table that answers a query with the runs above, if it has all columns of the order.
abbrev all_known : List Text → List Text → Bool
all_known [] columns = true
all_known (c ∷ order) columns = is_one_of c columns && all_known order columns

abbrev answer : Bool → Result DbError (List RunRow)
answer true = ok test_rows
answer false = err (failure 42703)

all_known-false :
    (c : Text) (order columns : List Text)
    → is_one_of c order ≡ true
    → is_one_of c columns ≡ false
    → all_known order columns ≡ false
unfolding any
all_known-false c [] columns k u = absurd (cc)
all_known-false c (d ∷ order) columns k u = elim (Bool-cases (text_eq c d)) [
  | inl y ↦ let p : c ≡ d = (text_eq_iff c d).0 y in rw (← p, u) refl
  | inr n ↦ ground (arith, all_known-false c order columns, n)
]

abbrev runs : RunsTable
runs = record {
  columns = runs_columns;
  find = λ ids order. answer (all_known order runs_columns);
  find_undefined = λ ids order c k u. (42703, ap answer (all_known-false c order runs_columns k u));
}

list_run :
    handle_list_machines {V = Text} (λ id. id) (ok (7 ∷ [])) (ok []) runs ≡ err (failure 42703)
unfolding handle_list_machines with_facts with_runs list_item latest_facts fetch_recent_runs
    collect_runs sort_runs insert_run lookup insert text_eq any
list_run = refl

handle_list_machines_lem_example :
    (n : ℕ) × (handle_list_machines {V = Text} (λ id. id) (ok (7 ∷ [])) (ok []) runs
      ≡ err (failure n))
handle_list_machines_lem_example = handle_list_machines_lem (λ id. id) 7 [] (ok []) runs refl
