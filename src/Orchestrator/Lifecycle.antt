-- ===== src/Orchestrator/Lifecycle.antt =====
-- services/orchestrator/sm.go: a provisioning from enrollment to completion, and what the
-- announcements do when they come back to the state machine.
use goosed.Support.{
  ℕ, ◌≡◌, ◌≢◌, sym, Bool, true, false, Option, none, some, [], ◌∷◌, ◌++◌, ◌==◌, inl, inr, arith,
  nat_eq, subst, not, if◌then◌else◌, ◌&&◌,
}
use goosed.Support.Maps.{lookup, lookup-insert, lookup-delete}
use goosed.Support.Results.{ok}
use goosed.Support.Text.{equal_fold}
use goosed.Gorm.Table.{Table, updated}
use goosed.Bus.{JetStream}
use goosed.Orchestrator.Handlers.{
  RunModel, run_status_running, run_status_success, MachineEnrolledEvent, AgentFactsEvent,
  RunLifecycleEvent, Message, run_started, run_finished, is_post_install_done, succeed,
  StateMachine, handle_machine_enrolled, handle_agent_facts, handle_run_started,
  handle_run_finished,
}
use goosed.Orchestrator.Enrollment.{
  new_run, Tracked, Enrolled, already, created, handle_machine_enrolled-Enrolled,
}
use goosed.Orchestrator.Completion.{
  Known, Completed, FactsOutcome, unfinished, no_run, nil_run, completed,
  handle_agent_facts-FactsOutcome,
}

module _ (table : Table RunModel) (bus : JetStream Message) where
  -- What the announcements do to the memory, for each machine `j`.
  abbrev after_started : RunLifecycleEvent → ℕ → Option ℕ → Option ℕ
  after_started evt j o =
      if not (evt.machine_id == 0)
        && not (evt.run_id == 0)
        && equal_fold evt.status run_status_running
        && evt.machine_id == j
      then some evt.run_id
      else o

  abbrev is_run : ℕ → Option ℕ → Bool
  is_run r none = false
  is_run r (some c) = c == r

  abbrev after_finished : RunLifecycleEvent → ℕ → Option ℕ → Option ℕ
  after_finished evt j o =
      if not (evt.machine_id == 0)
        && not (evt.run_id == 0)
        && evt.machine_id == j
        && is_run evt.run_id o
      then none
      else o

  -- An announced start makes its machine remember its run if both have ids and its status is
  -- running in any case of letters; nothing else of the memory, the table or the bus changes.
  handle_run_started_lem :
      (evt : RunLifecycleEvent) (sm : StateMachine table bus) (j : ℕ)
      → (lookup j (handle_run_started table bus (some evt) sm).1.active_runs
          ≡ after_started evt j (lookup j sm.active_runs))
        × ((handle_run_started table bus (some evt) sm).1.db ≡ sm.db)
        × ((handle_run_started table bus (some evt) sm).1.js ≡ sm.js)
  unfolding handle_run_started
  handle_run_started_lem evt sm j =
      ground (arith, lookup-insert evt.machine_id j evt.run_id sm.active_runs)

  -- An announced end makes its machine forget its run only if that is the run it remembers: the end
  -- of an older run changes nothing, and no other machine is touched.
  handle_run_finished_lem :
      (evt : RunLifecycleEvent) (sm : StateMachine table bus) (j : ℕ)
      → (lookup j (handle_run_finished table bus (some evt) sm).1.active_runs
          ≡ after_finished evt j (lookup j sm.active_runs))
        × ((handle_run_finished table bus (some evt) sm).1.db ≡ sm.db)
        × ((handle_run_finished table bus (some evt) sm).1.js ≡ sm.js)
  unfolding handle_run_finished
  handle_run_finished_lem evt sm j = ground (arith, lookup-delete evt.machine_id j sm.active_runs)

  Enrolled-new :
      {machine run_id t : ℕ} {sm sm' : StateMachine table bus}
      → ¬ Tracked table bus machine sm
      → Enrolled table bus machine run_id t sm sm'
      → (table.rows sm'.db ≡ table.rows sm.db ++ new_run machine run_id t ∷ [])
        × (bus.sent sm'.js ≡ bus.sent sm.js ++ run_started run_id machine run_status_running t ∷ [])
        × (lookup machine sm'.active_runs ≡ some run_id)
  Enrolled-new idle (already b r s a) = absurd (idle b)
  Enrolled-new idle (created none_running r s l a) = (r, s, l)

  Known-active :
      {run_id run_id' : ℕ} (machine : ℕ) (sm : StateMachine table bus)
      → lookup machine sm.active_runs ≡ some run_id
      → Known table bus machine run_id' sm
      → run_id' ≡ run_id
  Known-active machine sm l (inl k) = cc
  Known-active machine sm l (inr (_, k, _, _, _)) = absurd (cc)

  facts_active :
      {facts : AgentFactsEvent} {run_id t : ℕ} {sm sm' : StateMachine table bus}
      → run_id ≢ 0
      → is_post_install_done facts.snapshot ≡ true
      → lookup facts.machine_id sm.active_runs ≡ some run_id
      → FactsOutcome table bus facts t sm sm'
      → Completed table bus facts.machine_id run_id t sm sm'
  facts_active n d l (unfinished u s) = absurd (cc)
  facts_active n d l (no_run a r s q) = absurd (cc)
  facts_active {facts} {sm = sm} n d l (nil_run k r s) =
      absurd (n (sym (Known-active facts.machine_id sm l k)))
  facts_active {facts} {t = t} {sm} {sm'} n d l (completed run z k c) =
      subst (λ r. Completed table bus facts.machine_id r t sm sm')
        (Known-active facts.machine_id sm l k) c

  -- A machine that has no run is enrolled, where the id drawn for a run is not nil, and then reports
  -- that its installation is done: if both events are accepted, the table has gained one run, a
  -- success, and the bus its start and its end.
  pub provisioning :
      (enrolled : MachineEnrolledEvent) (facts : AgentFactsEvent) (run_id t t' : ℕ)
      (sm : StateMachine table bus) {sm' sm'' : StateMachine table bus}
      → run_id ≢ 0
      → enrolled.machine_id ≡ facts.machine_id
      → is_post_install_done facts.snapshot ≡ true
      → ¬ Tracked table bus facts.machine_id sm
      → handle_machine_enrolled table bus (some enrolled) run_id t sm ≡ (ok tt, sm')
      → handle_agent_facts table bus (some facts) t' sm' ≡ (ok tt, sm'')
      → (table.rows sm''.db
          ≡ updated
              (λ r. r.id == run_id)
              (succeed table bus t')
              (table.rows sm.db ++ new_run facts.machine_id run_id t ∷ []))
        × (bus.sent sm''.js
            ≡ (bus.sent sm.js ++ run_started run_id facts.machine_id run_status_running t ∷ [])
              ++ run_finished run_id facts.machine_id run_status_success t' ∷ [])
        × (lookup facts.machine_id sm''.active_runs ≢ some run_id)
  provisioning enrolled facts run_id t t' sm {sm'} n m d idle e f =
      let (r, s, l) = Enrolled-new idle (
        subst (λ k. Enrolled table bus k run_id t sm sm') m
          (handle_machine_enrolled-Enrolled table bus enrolled run_id t sm e).1) in
      let c = facts_active n d l (handle_agent_facts-FactsOutcome table bus facts t' sm' f) in
      (rw (← r) c.marked, rw (← s) c.announced, c.forgotten)
