-- ===== src/Inventory/Tests.antt =====
-- Facts of a small table, and each theorem at an input. A value is a number, 0 is null.
use goosed.Support.{
  ℕ, ◌≡◌, ◌≢◌, refl, Bool, true, false, none, some, List, [], ◌∷◌, ◌+◌, arith, nat_eq, any,
}
use goosed.Support.Text.{Text, lit, text_eq, text_eq_instance}
use goosed.Support.Maps.{Map, lookup, insert, lookup-nil}
use goosed.Support.Results.{ok, err}
use goosed.Gorm.Table.{failure, Table}
use goosed.Gorm.InMemory.{in_memory, best}
use goosed.Gorm.Flaky.{flaky}
use goosed.Gorm.Keyed.{in_memory_keyed}
use goosed.Inventory.Diff.{
  Change, compute_diff, each_previous, each_current, change_of, compute_diff-eq-change_of, redo,
  undo, redo-undo-compute_diff,
}
use goosed.Inventory.Ingest.{
  FactEvent, JsonColumn, FactModel, AuditModel, database, audit_actor, audit_action, fact_key,
  fact_of, Ingestor, previous_snapshot, insert_fact, insert_audit, handle_fact,
}
use goosed.Inventory.Audit.{Audited, handle_fact-Audited}
use goosed.Inventory.Retry.{retried}

program : Unit {0}
unfolding compute_diff each_previous each_current lookup insert text_eq best any previous_snapshot
    insert_fact insert_audit handle_fact
program = tt

abbrev before : Map Text ℕ
before = (lit "os", 1) ∷ (lit "cpu", 2) ∷ []

abbrev after : Map Text ℕ
after = (lit "cpu", 3) ∷ (lit "ram", 4) ∷ []

abbrev diff : Map Text (Change ℕ)
diff =
    (lit "os", record { old = 1; new = 0 })
    ∷ (lit "cpu", record { old = 2; new = 3 })
    ∷ (lit "ram", record { old = 0; new = 4 })
    ∷ []

differs : compute_diff 0 before after ≡ diff
unfolding program
differs = refl

cpu_before : lookup (lit "cpu") before ≢ some 0
unfolding program
cpu_before h = absurd (ground arith)

cpu_after : lookup (lit "cpu") after ≢ some 0
unfolding program
cpu_after h = absurd (ground arith)

fresh_before : lookup {V = ℕ} (lit "os") ((lit "cpu", 2) ∷ []) ≡ none
unfolding program
fresh_before = refl

fresh_after : lookup {V = ℕ} (lit "cpu") ((lit "ram", 4) ∷ []) ≡ none
unfolding program
fresh_after = refl

compute_diff-eq-change_of_example :
    lookup (lit "cpu") (compute_diff 0 before after)
    ≡ change_of 0 (lookup (lit "cpu") before) (lookup (lit "cpu") after)
compute_diff-eq-change_of_example =
    compute_diff-eq-change_of 0 before after (lit "cpu")
      (fresh_before, (lookup-nil (lit "cpu"), tt)) (fresh_after, (lookup-nil (lit "ram"), tt))

redo-undo-compute_diff_example :
    (redo 0 (lookup (lit "cpu") before) (lookup (lit "cpu") (compute_diff 0 before after))
      ≡ lookup (lit "cpu") after)
    × (undo 0 (lookup (lit "cpu") after) (lookup (lit "cpu") (compute_diff 0 before after))
        ≡ lookup (lit "cpu") before)
redo-undo-compute_diff_example =
    redo-undo-compute_diff 0 before after (lit "cpu") (fresh_before, (lookup-nil (lit "cpu"), tt))
      (fresh_after, (lookup-nil (lit "ram"), tt)) cpu_before cpu_after

-- A column that reads the number of a fact in another type than it had in the event: 100 stands for
-- 0 as a json.Number, and so on.
abbrev read_numbers : Map Text ℕ → Map Text ℕ
read_numbers [] = []
read_numbers ((k, v) ∷ m) = (k, 100 + v) ∷ read_numbers m

abbrev jsonb : JsonColumn ℕ
jsonb = record { Column = Map Text ℕ; value = λ m. m; scan = read_numbers }

-- The diff of the same snapshots, the first one as it is read.
abbrev read_diff : Map Text (Change ℕ)
read_diff =
    (lit "os", record { old = 101; new = 0 })
    ∷ (lit "cpu", record { old = 102; new = 3 })
    ∷ (lit "ram", record { old = 0; new = 4 })
    ∷ []

abbrev show_id : ℕ → Text
show_id n = n ∷ []

abbrev facts : Table (FactModel (Map Text ℕ))
facts = in_memory

abbrev audits : Table (AuditModel ℕ)
audits = flaky

abbrev State : Type 0
State = Ingestor 0 show_id jsonb facts (in_memory_keyed fact_key) audits

abbrev state : List (FactModel (Map Text ℕ)) → List (AuditModel ℕ) → Bool → State
state rows log failing = record {
  fact_db = rows;
  audit_db = record { kept = log; failing = failing };
}

abbrev event : FactEvent ℕ
event = record { fact_id = 12; machine_id = 7; snapshot = after; created_at = some 60 }

abbrev old_fact : FactModel (Map Text ℕ)
old_fact = record { id = 11; machine_id = 7; snapshot = jsonb.value before; created_at = 50 }

abbrev logged : AuditModel ℕ
logged = record {
  actor = audit_actor;
  action = audit_action;
  obj = show_id 7;
  machine_id = show_id 7;
  fact_id = show_id 12;
  changes = read_diff;
}

takes_in :
    handle_fact 0 show_id jsonb facts
      (in_memory_keyed fact_key)
      audits
      (some event)
      70
      (state (old_fact ∷ []) [] false)
    ≡ (ok tt, state (old_fact ∷ fact_of jsonb event 70 ∷ []) (logged ∷ []) false)
unfolding program
takes_in = refl

fails :
    handle_fact 0 show_id jsonb facts
      (in_memory_keyed fact_key)
      audits
      (some event)
      70
      (state (old_fact ∷ []) [] true)
    ≡ (err (database (failure 5)), state (old_fact ∷ fact_of jsonb event 70 ∷ []) [] false)
unfolding program
fails = refl

takes_in_later :
    handle_fact 0 show_id jsonb facts
      (in_memory_keyed fact_key)
      audits
      (some event)
      80
      (state (old_fact ∷ fact_of jsonb event 70 ∷ []) [] false)
    ≡ (ok tt, state (old_fact ∷ fact_of jsonb event 70 ∷ []) (logged ∷ []) false)
unfolding program
takes_in_later = refl

handle_fact-Audited_example :
    (◌≢◌ {A = ℕ} 12 0)
    × (◌≢◌ {A = ℕ} 7 0)
    × Audited 0 show_id jsonb facts
        (in_memory_keyed fact_key)
        audits
        event
        70
        (state (old_fact ∷ []) [] false)
        (state (old_fact ∷ fact_of jsonb event 70 ∷ []) (logged ∷ []) false)
handle_fact-Audited_example =
    handle_fact-Audited 0 show_id jsonb facts (in_memory_keyed fact_key) audits event 70
      (state (old_fact ∷ []) [] false) takes_in

retried_example :
    Audited 0 show_id jsonb facts
      (in_memory_keyed fact_key)
      audits
      event
      70
      (state (old_fact ∷ []) [] true)
      (state (old_fact ∷ fact_of jsonb event 70 ∷ []) (logged ∷ []) false)
retried_example =
    retried 0 show_id jsonb facts (in_memory_keyed fact_key) audits event 60 70 80
      (state (old_fact ∷ []) [] true) refl fails takes_in_later
