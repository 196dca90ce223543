-- ===== src/Orchestrator/Redelivery.antt =====
-- services/orchestrator/sm.go, handleMachineEnrolled: an event that is delivered more than once.
use goosed.Support.{
  ℕ, ◌≡◌, ◌≢◌, refl, true, false, some, [], ◌∷◌, ◌++◌, ◌⊎◌, ◌==◌, inl, inr, arith, Bool-cases,
  nat_eq,
}
use goosed.Support.Maps.{lookup, insert, lookup-insert_self}
use goosed.Support.Results.{ok, err}
use goosed.Gorm.Table.{Table}
use goosed.Bus.{JetStream, BusError}
use goosed.Orchestrator.Handlers.{
  RunModel, run_status_running, MachineEnrolledEvent, Message, run_started, publishing,
  is_running_on, is_active, StateMachine, handle_machine_enrolled, enroll_unless_active,
}
use goosed.Orchestrator.Enrollment.{
  new_run, Tracked, Enrolled, already, created, handle_machine_enrolled-Enrolled,
}

module _ (table : Table RunModel) (bus : JetStream Message) where
  Tracked-quiet :
      {machine run_id now : ℕ} {sm sm' : StateMachine table bus}
      → is_active (lookup machine sm.active_runs) ≡ false
      → Tracked table bus machine sm
      → Enrolled table bus machine run_id now sm sm'
      → (table.rows sm'.db ≡ table.rows sm.db) × (bus.sent sm'.js ≡ bus.sent sm.js)
  Tracked-quiet n (inl a) (already b r s t) = (r, s)
  Tracked-quiet n (inr a) (already b r s t) = (r, s)
  Tracked-quiet n (inl a) (created idle r s l t) = absurd (cc)
  Tracked-quiet n (inr a) (created idle r s l t) = absurd (a idle)

  active_quiet :
      (evt : MachineEnrolledEvent) (run_id now : ℕ) (sm : StateMachine table bus)
      → evt.machine_id ≢ 0
      → is_active (lookup evt.machine_id sm.active_runs) ≡ true
      → handle_machine_enrolled table bus (some evt) run_id now sm ≡ (ok tt, sm)
  unfolding handle_machine_enrolled
  active_quiet evt run_id now sm m a = ground arith

  -- After a successful delivery of an enrollment, a second one of the same machine, if it succeeds,
  -- writes no row and announces nothing, whatever fresh run id and time it comes with.
  pub enrolled_twice :
      (evt : MachineEnrolledEvent) (run_id now run_id' now' : ℕ) (sm : StateMachine table bus)
      {sm' sm'' : StateMachine table bus}
      → handle_machine_enrolled table bus (some evt) run_id now sm ≡ (ok tt, sm')
      → handle_machine_enrolled table bus (some evt) run_id' now' sm' ≡ (ok tt, sm'')
      → (table.rows sm''.db ≡ table.rows sm'.db) × (bus.sent sm''.js ≡ bus.sent sm'.js)
  enrolled_twice evt run_id now run_id' now' sm {sm'} {sm''} e e' =
      let (m, first) = handle_machine_enrolled-Enrolled table bus evt run_id now sm e in
      let (_, second) = handle_machine_enrolled-Enrolled table bus evt run_id' now' sm' e' in
      elim (Bool-cases (is_active (lookup evt.machine_id sm'.active_runs))) [
        | inl a ↦
            let same : sm' ≡ sm'' = cc (active_quiet evt run_id' now' sm' m a, e') in
            rw (← same) (refl, refl)
        | inr n ↦ Tracked-quiet n (tracked_after first) second
      ]
    where
      tracked_after :
          Enrolled table bus evt.machine_id run_id now sm sm' → Tracked table bus evt.machine_id sm'
      tracked_after (already b r s t) = t
      tracked_after (created idle r s l t) = t

  inside :
      (evt : MachineEnrolledEvent) (run_id now : ℕ) (sm : StateMachine table bus)
      {sm' : StateMachine table bus} {x : BusError}
      → handle_machine_enrolled table bus (some evt) run_id now sm ≡ (err (publishing x), sm')
      → (evt.machine_id ≢ 0)
        × (enroll_unless_active table bus evt.machine_id run_id now sm ≡ (err (publishing x), sm'))
  unfolding handle_machine_enrolled
  inside evt run_id now sm e = elim (Bool-cases (evt.machine_id == 0)) [
    | inl y ↦ absurd (ground arith)
    | inr n ↦ (ground arith, rw n at e)
  ]

  enroll_unannounced :
      (machine run_id now : ℕ) (sm : StateMachine table bus) {sm' : StateMachine table bus}
      {x : BusError}
      → enroll_unless_active table bus machine run_id now sm ≡ (err (publishing x), sm')
      → (table.rows sm'.db ≡ table.rows sm.db ++ new_run machine run_id now ∷ [])
        × ((bus.sent sm'.js ≡ bus.sent sm.js)
            ⊎ (bus.sent sm'.js
                ≡ bus.sent sm.js ++ run_started run_id machine run_status_running now ∷ []))
        × (sm'.active_runs ≡ insert machine run_id sm.active_runs)
  unfolding enroll_unless_active
  enroll_unannounced machine run_id now sm {x = x} e =
      let u = table.rows-first (is_running_on machine) (λ r. r.started_at) sm.db in
      ground (
        arith,
        u,
        table.create_ok (new_run machine run_id now)
            (table.first (is_running_on machine) (λ r. r.started_at) sm.db).1 tt,
        bus.publish_err (run_started run_id machine run_status_running now) sm.js x,
      )

  -- If only the announcement of a new run fails, the run, whose id is not zero, is in the table and
  -- remembered, and its announcement was stored or not; a further delivery with any fresh run id
  -- and time then succeeds and leaves the whole state as it is, so it announces nothing.
  pub announcement_failed :
      (evt : MachineEnrolledEvent) (run_id now run_id' now' : ℕ) (sm : StateMachine table bus)
      {sm' : StateMachine table bus} {x : BusError}
      → run_id ≢ 0
      → handle_machine_enrolled table bus (some evt) run_id now sm ≡ (err (publishing x), sm')
      → (table.rows sm'.db ≡ table.rows sm.db ++ new_run evt.machine_id run_id now ∷ [])
        × (lookup evt.machine_id sm'.active_runs ≡ some run_id)
        × ((bus.sent sm'.js ≡ bus.sent sm.js)
            ⊎ (bus.sent sm'.js
                ≡ bus.sent sm.js ++ run_started run_id evt.machine_id run_status_running now ∷ []))
        × (handle_machine_enrolled table bus (some evt) run_id' now' sm' ≡ (ok tt, sm'))
  announcement_failed evt run_id now run_id' now' sm {sm'} n e =
      let (m, e') = inside evt run_id now sm e in
      let (r, s, a) = enroll_unannounced evt.machine_id run_id now sm e' in
      let found : lookup evt.machine_id sm'.active_runs ≡ some run_id =
        rw a (lookup-insert_self evt.machine_id run_id sm.active_runs) in
      (r, found, s, active_quiet evt run_id' now' sm' m (rw found (ground arith)))
