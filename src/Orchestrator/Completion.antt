-- ===== src/Orchestrator/Completion.antt =====
-- services/orchestrator/sm.go, handleAgentFacts and the lifecycle events: how a run ends.
use goosed.Support.{
  ℕ, ◌≡◌, ◌≢◌, refl, true, false, Option, none, some, [], ◌∷◌, ◌++◌, ◌==◌, inl, inr, arith,
  Bool-cases, nat_eq, All, subst, ap, ◌⊎◌,
}
use goosed.Support.Maps.{Map, lookup, lookup-delete_self}
use goosed.Support.Results.{Result, ok, err}
use goosed.Gorm.Table.{DbError, record_not_found, failure, Table, Member, updated}
use goosed.Bus.{JetStream}
use goosed.Orchestrator.Handlers.{
  RunModel, run_status_success, AgentFactsEvent, Message, run_finished, is_running_on,
  is_post_install_done, succeed, StateMachine, handle_agent_facts, cleared, set_active_run,
  complete, complete_run, complete_active, resolve, find_running,
}

module _ (table : Table RunModel) (bus : JetStream Message) where
  -- The run `run_id` was marked a success, announced as finished, and is not remembered.
  pub record Completed (machine run_id now : ℕ) (sm sm' : StateMachine table bus) : Type 0 where
    pub marked :
        table.rows sm'.db ≡ updated (λ r. r.id == run_id) (succeed table bus now) (table.rows sm.db)
    pub announced :
        bus.sent sm'.js ≡ bus.sent sm.js ++ run_finished run_id machine run_status_success now ∷ []
    pub forgotten : lookup machine sm'.active_runs ≢ some run_id

  cleared_ne :
      (m r : ℕ) (runs : Map ℕ ℕ) → lookup m (cleared table bus m r runs (lookup m runs)) ≢ some r
  cleared_ne m r runs = go (lookup m runs) refl
    where
      go : (o : Option ℕ) → lookup m runs ≡ o → lookup m (cleared table bus m r runs o) ≢ some r
      go none e = λ h. cc
      go (some c) e = elim (Bool-cases (c == r)) [
        | inl y ↦ rw y (λ h. cc (h, lookup-delete_self m runs))
        | inr n ↦ rw n (λ h. ground (arith, e, h))
      ]

  complete-Completed :
      (machine run_id now : ℕ) (sm : StateMachine table bus) {sm' : StateMachine table bus}
      → run_id ≢ 0
      → complete table bus machine run_id now sm ≡ (ok tt, sm')
      → Completed machine run_id now sm sm'
  unfolding complete
  complete-Completed machine run_id now sm {sm'} n e =
      go (table.update (λ r. r.id == run_id) (succeed table bus now) sm.db).0 refl
    where
      go :
          (r : Result DbError ℕ)
          → (table.update (λ r. r.id == run_id) (succeed table bus now) sm.db).0 ≡ r
          → Completed machine run_id now sm sm'
      go (err x) f = absurd (ground arith)
      go (ok k) f =
          let u = table.update_ok (λ r. r.id == run_id) (succeed table bus now) sm.db k f in
          let p = bus.publish_ok (run_finished run_id machine run_status_success now) sm.js tt in
          let runs : sm'.active_runs
              ≡ cleared table bus machine run_id sm.active_runs (lookup machine sm.active_runs) =
            ground arith in
          record {
            marked = ground (arith, u);
            announced = ground (arith, p);
            forgotten = rw runs (cleared_ne machine run_id sm.active_runs);
          }

  -- How the run of a machine is known: it is remembered, or it is a running row of the table.
  abbrev pub Known : ℕ → ℕ → StateMachine table bus → Type 0
  Known machine run_id sm =
      (lookup machine sm.active_runs ≡ some run_id)
      ⊎ ((r : RunModel) × (lookup machine sm.active_runs ≡ none)
          × Member r (table.rows sm.db)
          × (is_running_on machine r ≡ true)
          × (r.id ≡ run_id))

  -- What the facts of a machine lead to.
  pub data FactsOutcome (evt : AgentFactsEvent) (now : ℕ) (sm sm' : StateMachine table bus)
      : Type 0 where
    unfinished : is_post_install_done evt.snapshot ≡ false → sm' ≡ sm → FactsOutcome evt now sm sm'
    no_run :
        lookup evt.machine_id sm.active_runs ≡ none
        → All (λ r. is_running_on evt.machine_id r ≡ false) (table.rows sm.db)
        → table.rows sm'.db ≡ table.rows sm.db
        → bus.sent sm'.js ≡ bus.sent sm.js
        → FactsOutcome evt now sm sm'
    nil_run :
        Known evt.machine_id 0 sm
        → table.rows sm'.db ≡ table.rows sm.db
        → bus.sent sm'.js ≡ bus.sent sm.js
        → FactsOutcome evt now sm sm'
    completed :
        (run_id : ℕ)
        → run_id ≢ 0
        → Known evt.machine_id run_id sm
        → Completed evt.machine_id run_id now sm sm'
        → FactsOutcome evt now sm sm'

  complete-FactsOutcome :
      (evt : AgentFactsEvent) (run_id now : ℕ) (sm mid : StateMachine table bus)
      {sm' : StateMachine table bus}
      → Known evt.machine_id run_id sm
      → table.rows mid.db ≡ table.rows sm.db
      → mid.js ≡ sm.js
      → complete table bus evt.machine_id run_id now mid ≡ (ok tt, sm')
      → FactsOutcome evt now sm sm'
  complete-FactsOutcome evt run_id now sm mid {sm'} k r j e = elim (Bool-cases (run_id == 0)) [
    | inl y ↦
        let zero_id : run_id ≡ 0 = ground arith in
        let same : mid ≡ sm' = unfold complete in ground arith in
        nil_run (subst (λ n. Known evt.machine_id n sm) zero_id k) (rw (← same) r)
          (rw (← same) (ap bus.sent j))
    | inr n ↦
        let c = complete-Completed evt.machine_id run_id now mid (λ z. ground arith) e in
        completed run_id (λ z. ground arith) k
          (record {
            marked = rw (← r) c.marked;
            announced = rw (← j) c.announced;
            forgotten = c.forgotten;
          })
  ]

  found-FactsOutcome :
      (evt : AgentFactsEvent) (now : ℕ) (sm : StateMachine table bus) {sm' : StateMachine table bus}
      (r : Result DbError RunModel)
      → lookup evt.machine_id sm.active_runs ≡ none
      → (table.first (is_running_on evt.machine_id) (λ x. x.started_at) sm.db).0 ≡ r
      → resolve table bus evt.machine_id now r (record sm {
        db = (table.first (is_running_on evt.machine_id) (λ x. x.started_at) sm.db).1;
      })
        ≡ (ok tt, sm')
      → FactsOutcome evt now sm sm'
  unfolding set_active_run
  found-FactsOutcome evt now sm (err (failure n)) a f e = absurd (ground arith)
  found-FactsOutcome evt now sm (err record_not_found) a f e =
      let u = table.rows-first (is_running_on evt.machine_id) (λ x. x.started_at) sm.db in
      no_run a (table.first_missing _ _ sm.db f) (ground (arith, u)) (ground arith)
  found-FactsOutcome evt now sm (ok run) a f e =
      let u = table.rows-first (is_running_on evt.machine_id) (λ x. x.started_at) sm.db in
      let (m, h, _) =
        table.first_found (is_running_on evt.machine_id) (λ x. x.started_at) sm.db run f in
      complete-FactsOutcome evt run.id now sm _ (inr (run, a, m, h, refl)) u refl e

  active-FactsOutcome :
      (evt : AgentFactsEvent) (now : ℕ) (sm : StateMachine table bus) {sm' : StateMachine table bus}
      (o : Option ℕ)
      → lookup evt.machine_id sm.active_runs ≡ o
      → complete_active table bus evt.machine_id now o sm ≡ (ok tt, sm')
      → FactsOutcome evt now sm sm'
  unfolding find_running
  active-FactsOutcome evt now sm (some run_id) a e =
      complete-FactsOutcome evt run_id now sm sm (inl a) refl refl e
  active-FactsOutcome evt now sm none a e = found-FactsOutcome evt now sm _ a refl e

  -- Facts that are accepted and say that the installation is done complete the run of the machine:
  -- the one remembered, else a row of it that is running; nothing is written or announced where
  -- there is none, or its id is nil, or the installation is not done.
  pub handle_agent_facts-FactsOutcome :
      (evt : AgentFactsEvent) (now : ℕ) (sm : StateMachine table bus) {sm' : StateMachine table bus}
      → handle_agent_facts table bus (some evt) now sm ≡ (ok tt, sm')
      → FactsOutcome evt now sm sm'
  unfolding handle_agent_facts complete_run
  handle_agent_facts-FactsOutcome evt now sm {sm'} e = elim (Bool-cases (evt.machine_id == 0)) [
    | inl y ↦ absurd (ground arith)
    | inr n ↦ elim (Bool-cases (is_post_install_done evt.snapshot)) [
      | inl d ↦ active-FactsOutcome evt now sm _ refl (rw (n, d) at e)
      | inr u ↦ unfinished u (ground arith)
    ]
  ]
