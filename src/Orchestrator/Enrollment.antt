-- ===== src/Orchestrator/Enrollment.antt =====
-- services/orchestrator/sm.go, handleMachineEnrolled: one running run for a machine.
use goosed.Support.{
  ℕ, ◌≡◌, ◌≢◌, refl, true, false, none, some, List, [], ◌∷◌, ◌++◌, ◌==◌, inl, inr, arith,
  Bool-cases, subst, nat_eq, All, ◌⊎◌,
}
use goosed.Support.Maps.{lookup, insert, lookup-insert_self}
use goosed.Support.Results.{Result, ok, err}
use goosed.Gorm.Table.{DbError, record_not_found, failure, Table, Member}
use goosed.Bus.{JetStream}
use goosed.Orchestrator.Handlers.{
  RunModel, run_status_running, MachineEnrolledEvent, Message, run_started, is_running_on,
  is_active, StateMachine, handle_machine_enrolled, enroll_unless_active, enroll, start_run,
  set_active_run,
}

-- The run that handleMachineEnrolled creates.
abbrev pub new_run : ℕ → ℕ → ℕ → RunModel
new_run machine run_id now = record {
  id = run_id;
  machine_id = some machine;
  status = run_status_running;
  started_at = some now;
  finished_at = none;
}

pub All-Member : {A : Type 0} (P : A → Type 0) (xs : List A) (a : A) → All P xs → Member a xs → P a
All-Member P [] a h m = elim m [ ]
All-Member P (x ∷ xs) a h (inl e) = subst P e h.0
All-Member P (x ∷ xs) a h (inr m) = All-Member P xs a h.1 m

new_run_running :
    (machine run_id now : ℕ) → is_running_on machine (new_run machine run_id now) ≡ true
unfolding is_running_on
new_run_running machine run_id now = ground arith

module _ (table : Table RunModel) (bus : JetStream Message) where
  -- The machine has a run: one is remembered, or a row of it is running.
  abbrev pub Tracked : ℕ → StateMachine table bus → Type 0
  Tracked machine sm =
      (is_active (lookup machine sm.active_runs) ≡ true)
      ⊎ (¬ All (λ r. is_running_on machine r ≡ false) (table.rows sm.db))

  -- What a successful call leaves: the rows and messages are as they were, or one run was created
  -- and announced, and no run of the machine was running before.
  pub data Enrolled (machine run_id now : ℕ) (sm sm' : StateMachine table bus) : Type 0 where
    already :
        Tracked machine sm
        → table.rows sm'.db ≡ table.rows sm.db
        → bus.sent sm'.js ≡ bus.sent sm.js
        → Tracked machine sm'
        → Enrolled machine run_id now sm sm'
    created :
        All (λ r. is_running_on machine r ≡ false) (table.rows sm.db)
        → table.rows sm'.db ≡ table.rows sm.db ++ new_run machine run_id now ∷ []
        → bus.sent sm'.js ≡ bus.sent sm.js ++ run_started run_id machine run_status_running now ∷ []
        → lookup machine sm'.active_runs ≡ some run_id
        → Tracked machine sm'
        → Enrolled machine run_id now sm sm'

  start_run_created :
      (machine run_id now : ℕ) (sm : StateMachine table bus) {sm' : StateMachine table bus}
      → start_run table bus machine run_id now sm ≡ (ok tt, sm')
      → (table.rows sm'.db ≡ table.rows sm.db ++ new_run machine run_id now ∷ [])
        × (bus.sent sm'.js
            ≡ bus.sent sm.js ++ run_started run_id machine run_status_running now ∷ [])
        × (sm'.active_runs ≡ insert machine run_id sm.active_runs)
  unfolding start_run
  start_run_created machine run_id now sm e = ground (
    arith,
    table.create_ok (new_run machine run_id now) sm.db tt,
    bus.publish_ok (run_started run_id machine run_status_running now) sm.js tt,
  )

  new_run-Tracked :
      (machine run_id now : ℕ) (sm : StateMachine table bus) (rows : List RunModel)
      → table.rows sm.db ≡ rows ++ new_run machine run_id now ∷ []
      → Tracked machine sm
  new_run-Tracked machine run_id now sm rows e =
      inr (λ a. no_run rows (subst (λ l. All (λ r. is_running_on machine r ≡ false) l) e a))
    where
      no_run :
          (l : List RunModel)
          → All (λ r. is_running_on machine r ≡ false) (l ++ new_run machine run_id now ∷ [])
          → ⊥
      no_run [] a = absurd (cc (a.0, new_run_running machine run_id now))
      no_run (x ∷ l) a = no_run l a.1

  found-Tracked :
      (machine : ℕ) (sm : StateMachine table bus) (r : RunModel)
      → Member r (table.rows sm.db)
      → is_running_on machine r ≡ true
      → Tracked machine sm
  found-Tracked machine sm r m h =
      inr
        (λ a. let f = All-Member (λ (x : RunModel). is_running_on machine x ≡ false) _ r a m in cc)

  Found-Enrolled :
      (machine run_id now : ℕ) (sm : StateMachine table bus) {sm' : StateMachine table bus}
      → (r : Result DbError RunModel)
      → (table.first (is_running_on machine) (λ r. r.started_at) sm.db).0 ≡ r
      → enroll table bus machine run_id now r
          (record sm { db = (table.first (is_running_on machine) (λ r. r.started_at) sm.db).1 })
        ≡ (ok tt, sm')
      → Enrolled machine run_id now sm sm'
  unfolding set_active_run
  Found-Enrolled machine run_id now sm {sm'} (ok run) f e =
      let u = table.rows-first (is_running_on machine) (λ r. r.started_at) sm.db in
      let (m, h, _) = table.first_found (is_running_on machine) (λ r. r.started_at) sm.db run f in
      let same : table.rows sm'.db ≡ table.rows sm.db = ground (arith, u) in
      already (found-Tracked machine sm run m h) same (ground arith)
        (found-Tracked machine sm' run (rw same m) h)
  Found-Enrolled machine run_id now sm (err (failure n)) f e = absurd (ground arith)
  Found-Enrolled machine run_id now sm {sm'} (err record_not_found) f e =
      let u = table.rows-first (is_running_on machine) (λ r. r.started_at) sm.db in
      let c = start_run_created machine run_id now _ e in
      created (table.first_missing _ _ sm.db f) (rw (← u) c.0) c.1
        (rw c.2 (lookup-insert_self machine run_id sm.active_runs))
        (new_run-Tracked machine run_id now sm' _ c.0)

  unless_active-Enrolled :
      (machine run_id now : ℕ) (sm : StateMachine table bus) {sm' : StateMachine table bus}
      → enroll_unless_active table bus machine run_id now sm ≡ (ok tt, sm')
      → Enrolled machine run_id now sm sm'
  unfolding enroll_unless_active
  unless_active-Enrolled machine run_id now sm {sm'} e =
      elim (Bool-cases (is_active (lookup machine sm.active_runs))) [
        | inl y ↦
            let same : sm ≡ sm' = ground arith in rw (← same) (already (inl y) refl refl (inl y))
        | inr n ↦ Found-Enrolled machine run_id now sm _ refl (rw n at e)
      ]

  -- An enrollment that is handled with success is about a machine with an id. Either the machine has a run already, by
  -- the memory or by the table, and then no row is written and nothing is announced; or no run of
  -- it is running, and one is created, announced and remembered.
  pub handle_machine_enrolled-Enrolled :
      (evt : MachineEnrolledEvent) (run_id now : ℕ) (sm : StateMachine table bus)
      {sm' : StateMachine table bus}
      → handle_machine_enrolled table bus (some evt) run_id now sm ≡ (ok tt, sm')
      → (evt.machine_id ≢ 0) × Enrolled evt.machine_id run_id now sm sm'
  unfolding handle_machine_enrolled
  handle_machine_enrolled-Enrolled evt run_id now sm e = elim (Bool-cases (evt.machine_id == 0)) [
    | inl y ↦ absurd (ground arith)
    | inr n ↦ (ground arith, unless_active-Enrolled evt.machine_id run_id now sm (rw n at e))
  ]
