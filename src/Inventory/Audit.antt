-- ===== src/Inventory/Audit.antt =====
-- services/inventory/ingest.go, handleFact: the fact and the audit row of an event, also when it is
-- delivered again after a failure.
use goosed.Support.{
  ℕ, ◌≡◌, ◌≢◌, refl, sym, ap, true, false, some, List, [], ◌∷◌, ◌++◌, ◌⊎◌, inl, inr, arith, ◌∙◌,
  ◌==◌, Eq, Bool-cases, All,
}
use goosed.Support.Text.{Text, text_eq_instance}
use goosed.Support.Maps.{Map}
use goosed.Support.Results.{Result, ok, err, and_then, and_then-ok}
use goosed.Gorm.Table.{DbError, record_not_found, failure, Table, Member, desc_le}
use goosed.Gorm.Keyed.{Keyed, with_new}
use goosed.Inventory.Diff.{compute_diff}
use goosed.Inventory.Ingest.{
  FactEvent, JsonColumn, FactModel, AuditModel, IngestError, fact_key, is_other_fact, fact_of,
  Ingestor, as_error, or_empty, previous_snapshot, insert_fact, audit_of, insert_audit, record_fact,
  handle_fact,
}

module _ {V : Type 0} ⦃e : Eq V⦄ (null : V) (uuid_string : ℕ → Text) (jsonb : JsonColumn V)
    (facts : Table (FactModel jsonb.Column)) (keyed : Keyed facts fact_key)
    (audits : Table (AuditModel V)) where
  abbrev State : Type 0
  State = Ingestor null uuid_string jsonb facts keyed audits

  -- A snapshot to compare with: that of a latest other fact of the machine, as the column is read,
  -- or an empty one where there is no other.
  abbrev pub IsPrevious : FactEvent V → List (FactModel jsonb.Column) → Map Text V → Type 0
  IsPrevious evt rows previous =
      ((r : FactModel jsonb.Column) × Member r rows
        × (is_other_fact evt.machine_id evt.fact_id r ≡ true)
        × All
            (λ x.
              is_other_fact evt.machine_id evt.fact_id x ≡ true
              → desc_le (some x.created_at) (some r.created_at) ≡ true)
            rows
        × (previous ≡ jsonb.scan r.snapshot))
      ⊎ (All (λ x. is_other_fact evt.machine_id evt.fact_id x ≡ false) rows × (previous ≡ []))

  -- An event was taken in.
  pub record Audited (evt : FactEvent V) (now : ℕ) (before after : State) : Type 0 where
    pub previous : Map Text V
    pub is_previous : IsPrevious evt (facts.rows before.fact_db) previous
    pub fact :
        facts.rows after.fact_db
        ≡ with_new fact_key (fact_of jsonb evt now) (facts.rows before.fact_db)
    pub audit :
        audits.rows after.audit_db
        ≡ audits.rows before.audit_db
          ++ audit_of null uuid_string jsonb facts keyed audits evt
              (compute_diff null previous evt.snapshot)
            ∷ []

  as_error-ok :
      {A : Type 0} (r : Result DbError A) {a : A}
      → as_error null uuid_string jsonb facts keyed audits r ≡ ok a
      → r ≡ ok a
  as_error-ok (ok a) h = cc
  as_error-ok (err x) h = absurd (cc)

  found-IsPrevious :
      (evt : FactEvent V) (s : facts.State) (r : Result DbError (FactModel jsonb.Column))
      {previous : Map Text V}
      → (facts.first (is_other_fact evt.machine_id evt.fact_id) (λ x. some x.created_at) s).0 ≡ r
      → or_empty null uuid_string jsonb facts keyed audits r ≡ ok previous
      → IsPrevious evt (facts.rows s) previous
  found-IsPrevious evt s (ok r) f h =
      let (m, o, a) = facts.first_found _ _ s r f in inl (r, m, o, a, cc)
  found-IsPrevious evt s (err record_not_found) f h = inr (facts.first_missing _ _ s f, cc)
  found-IsPrevious evt s (err (failure n)) f h = absurd (cc)

  abbrev row : FactEvent V → Map Text V → AuditModel V
  row evt previous =
      audit_of null uuid_string jsonb facts keyed audits evt
        (compute_diff null previous evt.snapshot)

  record_ok :
      (evt : FactEvent V) (now : ℕ) (previous : Map Text V) (i : State) {i' : State}
      → record_fact null uuid_string jsonb facts keyed audits evt now previous i ≡ (ok tt, i')
      → (facts.rows i'.fact_db ≡ with_new fact_key (fact_of jsonb evt now) (facts.rows i.fact_db))
        × (audits.rows i'.audit_db ≡ audits.rows i.audit_db ++ row evt previous ∷ [])
  unfolding insert_fact insert_audit
  record_ok evt now previous i {i'} h =
      let inserted = insert_fact null uuid_string jsonb facts keyed audits evt now i in
      let (u, q, h1) = and_then-ok inserted _ h in
      let fact = keyed.create_new_ok (fact_of jsonb evt now) i.fact_db u (as_error-ok _ q) in
      let wrote = as_error-ok (audits.create (row evt previous) i.audit_db).0 (ap (λ z. z.0) h1) in
      let audit = audits.create_ok (row evt previous) i.audit_db tt wrote in
      (
        ap (λ (z : Result IngestError (Unit {0}) × State). facts.rows z.1.fact_db) (sym h1) ∙ fact,
        ap (λ (z : Result IngestError (Unit {0}) × State). audits.rows z.1.audit_db) (sym h1)
            ∙ audit,
      )

  record_err :
      (evt : FactEvent V) (now : ℕ) (previous : Map Text V) (i : State) {x : IngestError}
      {i' : State}
      → record_fact null uuid_string jsonb facts keyed audits evt now previous i ≡ (err x, i')
      → (audits.rows i'.audit_db ≡ audits.rows i.audit_db)
        × ((facts.rows i'.fact_db ≡ facts.rows i.fact_db)
            ⊎ (facts.rows i'.fact_db
                ≡ with_new fact_key (fact_of jsonb evt now) (facts.rows i.fact_db)))
  unfolding insert_fact insert_audit
  record_err evt now previous i {i' = i'} h =
      go (keyed.create_new (fact_of jsonb evt now) i.fact_db).0 refl
    where
      wrote :
          (r : Result DbError (Unit {0}))
          → (keyed.create_new (fact_of jsonb evt now) i.fact_db).0 ≡ ok tt
          → (audits.create (row evt previous) i.audit_db).0 ≡ r
          → (audits.rows i'.audit_db ≡ audits.rows i.audit_db)
            × ((facts.rows i'.fact_db ≡ facts.rows i.fact_db)
                ⊎ (facts.rows i'.fact_db
                    ≡ with_new fact_key (fact_of jsonb evt now) (facts.rows i.fact_db)))
      wrote (ok u) f g = absurd (ground arith)
      wrote (err y) f g =
          let a = audits.create_err (row evt previous) i.audit_db y g in
          let b = keyed.create_new_ok (fact_of jsonb evt now) i.fact_db tt f in
          (ground (arith, a), inr (ground (arith, b)))

      go :
          (r : Result DbError (Unit {0}))
          → (keyed.create_new (fact_of jsonb evt now) i.fact_db).0 ≡ r
          → (audits.rows i'.audit_db ≡ audits.rows i.audit_db)
            × ((facts.rows i'.fact_db ≡ facts.rows i.fact_db)
                ⊎ (facts.rows i'.fact_db
                    ≡ with_new fact_key (fact_of jsonb evt now) (facts.rows i.fact_db)))
      go (ok u) f = wrote (audits.create (row evt previous) i.audit_db).0 f refl
      go (err y) f =
          let b = keyed.create_new_err (fact_of jsonb evt now) i.fact_db y f in
          (ground arith, inl (ground (arith, b)))

  asked_rows :
      (evt : FactEvent V) (i : State)
      → (facts.rows
            (previous_snapshot null uuid_string jsonb facts keyed audits evt.machine_id evt.fact_id
              i).1.fact_db
          ≡ facts.rows i.fact_db)
        × (audits.rows
              (previous_snapshot null uuid_string jsonb facts keyed audits evt.machine_id
                evt.fact_id i).1.audit_db
            ≡ audits.rows i.audit_db)
  unfolding previous_snapshot
  asked_rows evt i = (facts.rows-first _ _ i.fact_db, refl)

  -- The part of handleFact after its guards.
  abbrev take_in : FactEvent V → ℕ → State → Result IngestError (Unit {0}) × State
  take_in evt now i =
      and_then
        (previous_snapshot null uuid_string jsonb facts keyed audits evt.machine_id evt.fact_id i)
        (record_fact null uuid_string jsonb facts keyed audits evt now)

  take_in-Audited :
      (evt : FactEvent V) (now : ℕ) (i : State) {i' : State}
      → take_in evt now i ≡ (ok tt, i')
      → Audited evt now i i'
  unfolding previous_snapshot
  take_in-Audited evt now i {i'} h =
      let asked =
        previous_snapshot null uuid_string jsonb facts keyed audits evt.machine_id evt.fact_id i in
      let (previous, p, h1) = and_then-ok asked _ h in
      let (fact, audit) = record_ok evt now previous asked.1 h1 in
      let (same_facts, same_audits) = asked_rows evt i in
      record {
        previous = previous;
        is_previous = found-IsPrevious evt i.fact_db _ refl p;
        fact = fact ∙ ap (with_new fact_key (fact_of jsonb evt now)) same_facts;
        audit = audit ∙ ap (λ z. z ++ row evt previous ∷ []) same_audits;
      }

  -- What a failure leaves behind: the fact, perhaps.
  abbrev pub Interrupted : FactEvent V → ℕ → State → State → Type 0
  Interrupted evt now before after =
      (audits.rows after.audit_db ≡ audits.rows before.audit_db)
      × ((facts.rows after.fact_db ≡ facts.rows before.fact_db)
          ⊎ (facts.rows after.fact_db
              ≡ with_new fact_key (fact_of jsonb evt now) (facts.rows before.fact_db)))

  take_in-Interrupted :
      (evt : FactEvent V) (now : ℕ) (i : State) {x : IngestError} {i' : State}
      → take_in evt now i ≡ (err x, i')
      → Interrupted evt now i i'
  unfolding previous_snapshot
  take_in-Interrupted evt now i {x} {i'} h =
      go (or_empty null uuid_string jsonb facts keyed audits found.0) refl
    where
      found : Result DbError (FactModel jsonb.Column) × facts.State
      found =
          facts.first (is_other_fact evt.machine_id evt.fact_id) (λ r. some r.created_at) i.fact_db

      go :
          (r : Result IngestError (Map Text V))
          → or_empty null uuid_string jsonb facts keyed audits found.0 ≡ r
          → Interrupted evt now i i'
      go (err y) f = let (a, b) = asked_rows evt i in (ground (arith, b), inl (ground (arith, a)))
      go (ok previous) f =
          let (a, b) = asked_rows evt i in
          let (audit, fact) =
            record_err evt now previous (record i { fact_db = found.1 }) (rw f at h) in
          (
            audit,
            elim fact [
              | inl s ↦ inl (s ∙ a)
              | inr w ↦ inr (w ∙ ap (with_new fact_key (fact_of jsonb evt now)) a)
            ],
          )

  -- An event that handleFact takes in has both ids. Its fact is in the table, inserted unless a fact
  -- of its id stood there, and one audit row is added: the diff from the snapshot of a latest other
  -- fact of the machine, as its column is read, or from an empty one where there is no other, to the
  -- snapshot of the event. The snapshot is inserted as the column writes it.
  pub handle_fact-Audited :
      (evt : FactEvent V) (now : ℕ) (i : State) {i' : State}
      → handle_fact null uuid_string jsonb facts keyed audits (some evt) now i ≡ (ok tt, i')
      → (evt.fact_id ≢ 0) × (evt.machine_id ≢ 0) × Audited evt now i i'
  unfolding handle_fact
  handle_fact-Audited evt now i h = elim (Bool-cases (evt.fact_id == 0)) [
    | inl y ↦ absurd (ground arith)
    | inr n ↦ elim (Bool-cases (evt.machine_id == 0)) [
      | inl y ↦ absurd (ground arith)
      | inr m ↦ (ground arith, ground arith, take_in-Audited evt now i (rw (n, m) at h))
    ]
  ]

  pub handle_fact-Interrupted :
      (evt : FactEvent V) (now : ℕ) (i : State) {x : IngestError} {i' : State}
      → handle_fact null uuid_string jsonb facts keyed audits (some evt) now i ≡ (err x, i')
      → Interrupted evt now i i'
  unfolding handle_fact
  handle_fact-Interrupted evt now i h = elim (Bool-cases (evt.fact_id == 0)) [
    | inl y ↦ (ground arith, inl (ground arith))
    | inr n ↦ elim (Bool-cases (evt.machine_id == 0)) [
      | inl y ↦ (ground arith, inl (ground arith))
      | inr m ↦ take_in-Interrupted evt now i (rw (n, m) at h)
    ]
  ]
