-- ===== src/Inventory/Ingest.antt =====
-- services/inventory/ingest.go, types.go, fact_model.go and audit_model.go: handleFact. An event is
-- none where json.Unmarshal fails; uuid.Nil is 0; a nil map is an empty one; what time.Now returns is
-- an argument, and uuid.UUID.String a parameter. The snapshot of a fact is kept in a jsonb column,
-- whose writing and reading, Value and Scan of datatypes.JSONMap, are a parameter: no law says that a
-- snapshot is read as it was written; mapFromJSONMap and toJSONMap copy a map beside that. The details
-- of an audit row, which nothing reads here, are kept as they are given. The columns that the database
-- fills, the id and time of an audit row, are left out.
use goosed.Support.{ℕ, Bool, not, ◌&&◌, Option, none, some, [], ◌==◌, if◌then◌else◌, Eq}
use goosed.Support.Text.{Text, lit, text_eq_instance}
use goosed.Support.Maps.{Map}
use goosed.Support.Results.{Result, ok, err, Method, fail, ◌>>=◌, ◌>>◌}
use goosed.Gorm.Table.{DbError, record_not_found, failure, Table}
use goosed.Gorm.Keyed.{Keyed}
use goosed.Inventory.Diff.{Change, compute_diff}

-- factEvent; `created_at` is none where it is the zero time
pub record FactEvent (V : Type 0) : Type 0 where
  pub fact_id : ℕ
  pub machine_id : ℕ
  pub snapshot : Map Text V
  pub created_at : Option ℕ

-- A column of type datatypes.JSONMap: what it keeps, and how that is written and read.
pub record JsonColumn (V : Type 0) : Type 1 where
  pub Column : Type 0
  pub value : Map Text V → Column
  pub scan : Column → Map Text V

-- factModel, with its snapshot column
pub record FactModel (C : Type 0) : Type 0 where
  pub id : ℕ
  pub machine_id : ℕ
  pub snapshot : C
  pub created_at : ℕ

-- auditModel, with the three entries of its details
pub record AuditModel (V : Type 0) : Type 0 where
  pub actor : Text
  pub action : Text
  pub obj : Text
  pub machine_id : Text
  pub fact_id : Text
  pub changes : Map Text (Change V)

pub data IngestError : Type 0 where
  bad_payload missing_fact_id missing_machine_id : IngestError
  database : DbError → IngestError

abbrev pub audit_actor : Text
audit_actor = lit "agent"

abbrev pub audit_action : Text
audit_action = lit "facts_updated"

-- evt.CreatedAt, filled in
abbrev pub created_or : Option ℕ → ℕ → ℕ
created_or none now = now
created_or (some t) now = t

module _ {C : Type 0} where
  abbrev pub fact_key : FactModel C → ℕ
  fact_key r = r.id

  -- machine_id = ? AND id <> ?
  abbrev pub is_other_fact : ℕ → ℕ → FactModel C → Bool
  is_other_fact machine fact r = r.machine_id == machine && not (r.id == fact)

abbrev pub fact_of : {V : Type 0} (jsonb : JsonColumn V) → FactEvent V → ℕ → FactModel jsonb.Column
fact_of jsonb evt now = record {
  id = evt.fact_id;
  machine_id = evt.machine_id;
  snapshot = jsonb.value evt.snapshot;
  created_at = created_or evt.created_at now;
}

module _ {V : Type 0} ⦃e : Eq V⦄ (null : V) (uuid_string : ℕ → Text) (jsonb : JsonColumn V)
    (facts : Table (FactModel jsonb.Column)) (keyed : Keyed facts fact_key)
    (audits : Table (AuditModel V)) where
  -- The database that an Ingestor is bound to.
  pub record Ingestor : Type 0 where
    pub fact_db : facts.State
    pub audit_db : audits.State

  abbrev pub Ingesting : Type 0 → Type 0
  Ingesting A = Method Ingestor IngestError A

  abbrev pub as_error : {A : Type 0} → Result DbError A → Result IngestError A
  as_error (ok a) = ok a
  as_error (err x) = err (database x)

  -- What handleFact makes of the result of previousSnapshot.
  abbrev pub or_empty : Result DbError (FactModel jsonb.Column) → Result IngestError (Map Text V)
  or_empty (ok r) = ok (jsonb.scan r.snapshot)
  or_empty (err record_not_found) = ok []
  or_empty (err (failure n)) = err (database (failure n))

  -- previousSnapshot, with that
  unfoldable pub previous_snapshot : ℕ → ℕ → Ingesting (Map Text V)
  previous_snapshot machine fact i =
      let (found, s) =
        facts.first (is_other_fact machine fact) (λ r. some r.created_at) i.fact_db in
      (or_empty found, record i { fact_db = s })

  -- insertFact
  unfoldable pub insert_fact : FactEvent V → ℕ → Ingesting (Unit {0})
  insert_fact evt now i =
      let (done, s) = keyed.create_new (fact_of jsonb evt now) i.fact_db in
      (as_error done, record i { fact_db = s })

  abbrev pub audit_of : FactEvent V → Map Text (Change V) → AuditModel V
  audit_of evt diff = record {
    actor = audit_actor;
    action = audit_action;
    obj = uuid_string evt.machine_id;
    machine_id = uuid_string evt.machine_id;
    fact_id = uuid_string evt.fact_id;
    changes = diff;
  }

  -- insertAudit
  unfoldable pub insert_audit : FactEvent V → Map Text (Change V) → Ingesting (Unit {0})
  insert_audit evt diff i =
      let (done, s) = audits.create (audit_of evt diff) i.audit_db in
      (as_error done, record i { audit_db = s })

  -- The end of handleFact, with the snapshot before.
  abbrev pub record_fact : FactEvent V → ℕ → Map Text V → Ingesting (Unit {0})
  record_fact evt now previous = do
    insert_fact evt now
    insert_audit evt (compute_diff null previous evt.snapshot)

  -- handleFact
  unfoldable pub handle_fact : Option (FactEvent V) → ℕ → Ingesting (Unit {0})
  unfolding previous_snapshot insert_fact insert_audit
  handle_fact none now = fail bad_payload
  handle_fact (some evt) now =
      if evt.fact_id == 0
      then fail missing_fact_id
      else if evt.machine_id == 0
      then fail missing_machine_id
      else previous_snapshot evt.machine_id evt.fact_id >>= record_fact evt now
