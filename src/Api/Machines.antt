-- ===== src/Api/Machines.antt =====
-- services/api/handlers_machines.go: handleListMachines, fetchLatestFacts, fetchRecentRuns, runTime and
-- deriveMachineStatus. Times are numbers, and the zero time is 0.
use goosed.Support.{
  ℕ, zero, suc, Bool, Option, none, some, List, [], ◌∷◌, ◌++◌, ltb, leb, length, take, map, ◌≡◌,
  true, false, if◌then◌else◌, any, nat_eq,
}
use goosed.Support.Text.{Text, lit, text_eq, trim_space, to_lower}
use goosed.Support.Maps.{Map, lookup, insert}
use goosed.Support.Results.{Result, ok, err}
use goosed.Gorm.Table.{DbError, record_not_found, failure}

-- factModel, with what a snapshot is as a parameter
pub record FactRow (V : Type 0) : Type 0 where
  pub id : ℕ
  pub machine_id : ℕ
  pub snapshot : V
  pub created_at : ℕ

pub record MachineListFact (V : Type 0) : Type 0 where
  pub id : ℕ
  pub snapshot : V
  pub created_at : ℕ

pub record RunRow : Type 0 where
  pub id : ℕ
  pub machine_id : Option ℕ
  pub blueprint_id : Option ℕ
  pub status : Text
  pub started_at : Option ℕ
  pub finished_at : Option ℕ
  pub logs : Text

pub record MachineRun : Type 0 where
  pub id : ℕ
  pub machine_id : ℕ
  pub blueprint_id : ℕ
  pub status : Text
  pub started_at : Option ℕ
  pub finished_at : Option ℕ
  pub logs : Text

abbrev pub value_or_zero : Option ℕ → ℕ
value_or_zero none = 0
value_or_zero (some id) = id

-- runModel.toAPI
abbrev pub to_run : RunRow → MachineRun
to_run r = record {
  id = r.id;
  machine_id = value_or_zero r.machine_id;
  blueprint_id = value_or_zero r.blueprint_id;
  status = r.status;
  started_at = r.started_at;
  finished_at = r.finished_at;
  logs = r.logs;
}

abbrev pub found_or_empty : {A : Type 0} → Result DbError (List A) → Result DbError (List A)
found_or_empty (ok rows) = ok rows
found_or_empty (err record_not_found) = ok []
found_or_empty (err (failure n)) = err (failure n)

module _ {V : Type 0} where
  abbrev pub note_fact :
      FactRow V → Option (MachineListFact V) → Map ℕ (MachineListFact V) → Map ℕ (MachineListFact V)
  note_fact fact (some seen) out = out
  note_fact fact none out =
      insert fact.machine_id
        (record { id = fact.id; snapshot = fact.snapshot; created_at = fact.created_at }) out

  -- The loop of fetchLatestFacts.
  unfoldable pub latest_facts :
      Map ℕ (MachineListFact V) → List (FactRow V) → Map ℕ (MachineListFact V)
  unfolding lookup insert
  latest_facts out [] = out
  latest_facts out (fact ∷ facts) =
      latest_facts (note_fact fact (lookup fact.machine_id out) out) facts

abbrev pub runs_or_nil : Option (List MachineRun) → List MachineRun
runs_or_nil none = []
runs_or_nil (some runs) = runs

abbrev pub append_run :
    ℕ → ℕ → MachineRun → List MachineRun → Map ℕ (List MachineRun) → Map ℕ (List MachineRun)
append_run per_machine id run runs out =
    if leb per_machine (length runs) then out else insert id (runs ++ run ∷ []) out

abbrev pub note_run : ℕ → RunRow → Option ℕ → Map ℕ (List MachineRun) → Map ℕ (List MachineRun)
note_run per_machine row none out = out
note_run per_machine row (some zero) out = out
note_run per_machine row (some (suc id)) out =
    append_run per_machine (suc id) (to_run row) (runs_or_nil (lookup (suc id) out)) out

-- The first loop of fetchRecentRuns.
unfoldable pub collect_runs : ℕ → Map ℕ (List MachineRun) → List RunRow → Map ℕ (List MachineRun)
unfolding lookup insert
collect_runs per_machine out [] = out
collect_runs per_machine out (row ∷ rows) =
    collect_runs per_machine (note_run per_machine row row.machine_id out) rows

abbrev pub time_or : Option ℕ → ℕ → ℕ
time_or none t = t
time_or (some t) _ = t

-- runTime
abbrev pub run_time : MachineRun → ℕ
run_time run = time_or run.started_at (time_or run.finished_at 0)

unfoldable pub insert_run : MachineRun → List MachineRun → List MachineRun
insert_run run [] = run ∷ []
insert_run run (other ∷ runs) =
    let rest = insert_run run runs in
    if ltb (run_time run) (run_time other) then other ∷ rest else run ∷ other ∷ runs

-- sort.SliceStable by runTime, the latest first
unfoldable pub sort_runs : List MachineRun → List MachineRun
unfolding insert_run
sort_runs [] = []
sort_runs (run ∷ runs) = insert_run run (sort_runs runs)

abbrev pub sort_entry : ℕ → ℕ × List MachineRun → ℕ × List MachineRun
sort_entry per_machine (id, runs) = (id, take per_machine (sort_runs runs))

abbrev pub recent_of : ℕ → Result DbError (List RunRow) → Result DbError (Map ℕ (List MachineRun))
recent_of per_machine (err e) = err e
recent_of per_machine (ok rows) =
    ok (map (sort_entry per_machine) (collect_runs per_machine [] rows))

-- The columns of the table runs, as the migration makes them.
abbrev pub runs_columns : List Text
runs_columns =
    lit "id"
    ∷ lit "machine_id"
    ∷ lit "blueprint_id"
    ∷ lit "status"
    ∷ lit "started_at"
    ∷ lit "finished_at"
    ∷ lit "logs"
    ∷ []

-- The columns that fetchRecentRuns orders by, both DESC.
abbrev pub runs_order : List Text
runs_order = lit "started_at" ∷ lit "created_at" ∷ []

abbrev pub is_one_of : Text → List Text → Bool
is_one_of s names = any (text_eq s) names

-- The table runs behind gorm: the columns that it has in PostgreSQL, and a query for the runs of some
-- machines in an order, which fails where a column of the order is none of the table.
pub record RunsTable : Type 0 where
  pub columns : List Text
  pub find : (machine_ids : List ℕ) (order : List Text) → Result DbError (List RunRow)
  pub find_undefined :
      (machine_ids : List ℕ) (order : List Text) (column : Text)
      → is_one_of column order ≡ true
      → is_one_of column columns ≡ false
      → (n : ℕ) × (find machine_ids order ≡ err (failure n))

-- fetchRecentRuns
unfoldable pub fetch_recent_runs :
    (machine_ids : List ℕ) (per_machine : ℕ) → RunsTable → Result DbError (Map ℕ (List MachineRun))
unfolding collect_runs sort_runs
fetch_recent_runs [] per_machine table = ok []
fetch_recent_runs (id ∷ ids) zero table = ok []
fetch_recent_runs (id ∷ ids) (suc n) table =
    recent_of (suc n) (found_or_empty (table.find (id ∷ ids) runs_order))

abbrev pub fact_status : {V : Type 0} → Option (MachineListFact V) → Text
fact_status none = lit "offline"
fact_status (some fact) = lit "ready"

-- deriveMachineStatus
unfoldable pub derive_machine_status :
    {V : Type 0} → Option (MachineListFact V) → List MachineRun → Text
unfolding trim_space to_lower text_eq any
derive_machine_status fact [] = fact_status fact
derive_machine_status fact (latest ∷ runs) =
    let status = to_lower (trim_space latest.status) in
    if text_eq status (lit "running")
    then lit "provisioning"
    else if is_one_of status (lit "success" ∷ lit "succeeded" ∷ lit "completed" ∷ [])
    then lit "ready"
    else if is_one_of status (lit "failed" ∷ lit "failure" ∷ lit "error" ∷ lit "errored" ∷ [])
    then lit "error"
    else fact_status fact

pub record MachineListItem (V M : Type 0) : Type 0 where
  pub machine : M
  pub status : Text
  pub latest_fact : Option (MachineListFact V)
  pub recent_runs : List MachineRun

module _ {V M : Type 0} (id_of : M → ℕ) where
  unfoldable pub list_item :
      Map ℕ (MachineListFact V) → Map ℕ (List MachineRun) → M → MachineListItem V M
  unfolding derive_machine_status lookup
  list_item facts recent m =
      let fact = lookup (id_of m) facts in
      let runs = runs_or_nil (lookup (id_of m) recent) in
      record {
        machine = m;
        status = derive_machine_status fact runs;
        latest_fact = fact;
        recent_runs = runs;
      }

  unfoldable pub with_runs :
      List M
      → Map ℕ (MachineListFact V)
      → Result DbError (Map ℕ (List MachineRun))
      → Result DbError (List (MachineListItem V M))
  unfolding list_item
  with_runs models facts (err e) = err e
  with_runs models facts (ok recent) = ok (map (list_item facts recent) models)

  unfoldable pub with_facts :
      List M
      → Result DbError (List (FactRow V))
      → Result DbError (Map ℕ (List MachineRun))
      → Result DbError (List (MachineListItem V M))
  unfolding latest_facts with_runs
  with_facts models (err e) recent = err e
  with_facts models (ok facts) recent = with_runs models (latest_facts [] facts) recent

  -- handleListMachines, of what the first two queries return, and of the table of runs; an error is answered with 500
  unfoldable pub handle_list_machines :
      Result DbError (List M)
      → Result DbError (List (FactRow V))
      → RunsTable
      → Result DbError (List (MachineListItem V M))
  unfolding fetch_recent_runs with_facts
  handle_list_machines (err e) facts runs = err e
  handle_list_machines (ok []) facts runs = ok []
  handle_list_machines (ok (m ∷ models)) facts runs =
      with_facts (m ∷ models) (found_or_empty facts)
        (fetch_recent_runs (map id_of (m ∷ models)) 5 runs)
