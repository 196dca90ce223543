-- ===== src/Orchestrator/Handlers.antt =====
-- services/orchestrator/sm.go, types.go and run_model.go: the handlers of the four subjects. An
-- event is `none` where json.Unmarshal fails; uuid.Nil is 0; what uuid.New and time.Now return is
-- an argument. The locks are left out: a handler is one step.
use goosed.Support.{ℕ, Bool, false, not, ◌&&◌, Option, none, some, ◌==◌, if◌then◌else◌, nat_eq}
use goosed.Support.Text.{Text, lit, text_eq, equal_fold, text_eq_instance}
use goosed.Support.Maps.{Map, lookup, insert, delete}
use goosed.Support.Results.{Result, ok, err, Method, return, fail, ◌>>=◌, ◌>>◌}
use goosed.Gorm.Table.{DbError, record_not_found, failure, Table}
use goosed.Bus.{JetStream, BusError}

-- runModel
pub record RunModel : Type 0 where
  pub id : ℕ
  pub machine_id : Option ℕ
  pub status : Text
  pub started_at : Option ℕ
  pub finished_at : Option ℕ

abbrev pub run_status_running : Text
run_status_running = lit "running"

abbrev pub run_status_success : Text
run_status_success = lit "success"

-- The values of a snapshot that isPostInstallDone tells apart; a float64 is its 64 bits.
pub data Value : Type 0 where
  bool : Bool → Value
  text : Text → Value
  float64 : ℕ → Value
  other : Value

-- machineEnrolledEvent
pub record MachineEnrolledEvent : Type 0 where
  pub machine_id : ℕ

-- agentFactsEvent; a nil map is an empty one
pub record AgentFactsEvent : Type 0 where
  pub machine_id : ℕ
  pub snapshot : Map Text Value

-- runLifecycleEvent
pub record RunLifecycleEvent : Type 0 where
  pub run_id : ℕ
  pub machine_id : ℕ
  pub status : Text

-- The payloads on runStartedSubject and runFinishedSubject.
pub data Message : Type 0 where
  run_started run_finished : ℕ → ℕ → Text → ℕ → Message

pub data SmError : Type 0 where
  bad_payload : SmError
  missing_machine_id : SmError
  database : DbError → SmError
  publishing : BusError → SmError

-- v != 0: neither of the two zeros
abbrev is_nonzero : ℕ → Bool
is_nonzero b = not (b == 0) && not (b == 0x8000000000000000)

abbrev is_done : Option Value → Bool
is_done none = false
is_done (some (bool b)) = b
is_done (some (text t)) = equal_fold t (lit "true")
is_done (some (float64 b)) = is_nonzero b
is_done (some other) = false

-- isPostInstallDone
unfoldable pub is_post_install_done : Map Text Value → Bool
unfolding lookup equal_fold
is_post_install_done snapshot = is_done (lookup (lit "postinstall_done") snapshot)

abbrev pub is_machine : ℕ → Option ℕ → Bool
is_machine m none = false
is_machine m (some n) = n == m

-- machine_id = ? AND status = ?, with runStatusRunning
unfoldable pub is_running_on : ℕ → RunModel → Bool
unfolding text_eq
is_running_on m r = is_machine m r.machine_id && text_eq r.status run_status_running

-- `ok && runID != uuid.Nil`
abbrev pub is_active : Option ℕ → Bool
is_active none = false
is_active (some r) = not (r == 0)

module _ (table : Table RunModel) (bus : JetStream Message) where
  -- StateMachine, with the database and the bus that it is bound to
  pub record StateMachine : Type 0 where
    pub active_runs : Map ℕ ℕ
    pub db : table.State
    pub js : bus.State

  abbrev pub Sm : Type 0 → Type 0
  Sm A = Method StateMachine SmError A

  -- setActiveRun
  unfoldable pub set_active_run : ℕ → ℕ → Sm (Unit {0})
  set_active_run m r sm = (ok tt, record sm { active_runs = insert m r sm.active_runs })

  abbrev pub cleared : ℕ → ℕ → Map ℕ ℕ → Option ℕ → Map ℕ ℕ
  cleared m r runs none = runs
  cleared m r runs (some current) = if current == r then delete m runs else runs

  -- clearActiveRun
  unfoldable pub clear_active_run : ℕ → ℕ → Sm (Unit {0})
  clear_active_run m r sm =
      (ok tt, record sm { active_runs = cleared m r sm.active_runs (lookup m sm.active_runs) })

  -- getActiveRun
  unfoldable pub get_active_run : ℕ → StateMachine → Option ℕ
  get_active_run m sm = lookup m sm.active_runs

  abbrev pub as_error : {A : Type 0} → Result DbError A → Result SmError A
  as_error (ok a) = ok a
  as_error (err e) = err (database e)

  abbrev pub as_publish_error : {A : Type 0} → Result BusError A → Result SmError A
  as_publish_error (ok a) = ok a
  as_publish_error (err e) = err (publishing e)

  -- The latest run of the machine that is running. The error of the query is a value: the
  -- handlers look at it.
  unfoldable pub find_running : ℕ → Sm (Result DbError RunModel)
  find_running m sm =
      let (found, d) = table.first (is_running_on m) (λ r. r.started_at) sm.db in
      (ok found, record sm { db = d })

  unfoldable pub create_run : RunModel → Sm (Unit {0})
  create_run r sm = let (done, d) = table.create r sm.db in (as_error done, record sm { db = d })

  abbrev pub succeed : ℕ → RunModel → RunModel
  succeed now r = record r { status = run_status_success; finished_at = some now }

  -- UPDATE runs SET status, finished_at WHERE id = ?
  unfoldable pub finish_run : ℕ → ℕ → Sm ℕ
  finish_run id now sm =
      let (done, d) = table.update (λ r. r.id == id) (succeed now) sm.db in
      (as_error done, record sm { db = d })

  unfoldable pub publish : Message → Sm (Unit {0})
  publish msg sm =
      let (done, j) = bus.js_publish msg sm.js in (as_publish_error done, record sm { js = j })

  -- The end of handleMachineEnrolled: a new run.
  unfoldable pub start_run : ℕ → ℕ → ℕ → Sm (Unit {0})
  unfolding create_run set_active_run publish
  start_run machine run_id now = do
    create_run (record {
      id = run_id;
      machine_id = some machine;
      status = run_status_running;
      started_at = some now;
      finished_at = none;
    })
    set_active_run machine run_id
    publish (run_started run_id machine run_status_running now)

  -- The switch on the result of the query.
  abbrev pub enroll : ℕ → ℕ → ℕ → Result DbError RunModel → Sm (Unit {0})
  enroll machine run_id now (ok existing) = set_active_run machine existing.id
  enroll machine run_id now (err record_not_found) = start_run machine run_id now
  enroll machine run_id now (err (failure n)) = fail (database (failure n))

  unfoldable pub enroll_unless_active : ℕ → ℕ → ℕ → Sm (Unit {0})
  unfolding get_active_run find_running start_run set_active_run
  enroll_unless_active machine run_id now sm =
      if is_active (get_active_run machine sm)
      then (ok tt, sm)
      else (find_running machine >>= enroll machine run_id now) sm

  -- handleMachineEnrolled
  unfoldable pub handle_machine_enrolled : Option MachineEnrolledEvent → ℕ → ℕ → Sm (Unit {0})
  unfolding enroll_unless_active
  handle_machine_enrolled none run_id now = fail bad_payload
  handle_machine_enrolled (some evt) run_id now =
      if evt.machine_id == 0
      then fail missing_machine_id
      else enroll_unless_active evt.machine_id run_id now

  -- The end of handleAgentFacts: the run is finished.
  unfoldable pub complete : ℕ → ℕ → ℕ → Sm (Unit {0})
  unfolding finish_run clear_active_run publish
  complete machine run_id now = if run_id == 0 then return tt else do
    finish_run run_id now
    clear_active_run machine run_id
    publish (run_finished run_id machine run_status_success now)

  abbrev pub resolve : ℕ → ℕ → Result DbError RunModel → Sm (Unit {0})
  resolve machine now (ok run) = do set_active_run machine run.id; complete machine run.id now
  resolve machine now (err record_not_found) = return tt
  resolve machine now (err (failure n)) = fail (database (failure n))

  abbrev pub complete_active : ℕ → ℕ → Option ℕ → Sm (Unit {0})
  complete_active machine now (some run_id) = complete machine run_id now
  complete_active machine now none = find_running machine >>= resolve machine now

  unfoldable pub complete_run : ℕ → ℕ → Sm (Unit {0})
  unfolding get_active_run find_running set_active_run complete
  complete_run machine now sm = complete_active machine now (get_active_run machine sm) sm

  -- handleAgentFacts
  unfoldable pub handle_agent_facts : Option AgentFactsEvent → ℕ → Sm (Unit {0})
  unfolding is_post_install_done complete_run
  handle_agent_facts none now = fail bad_payload
  handle_agent_facts (some evt) now =
      if evt.machine_id == 0
      then fail missing_machine_id
      else if not (is_post_install_done evt.snapshot)
      then return tt
      else complete_run evt.machine_id now

  -- handleRunStarted
  unfoldable pub handle_run_started : Option RunLifecycleEvent → Sm (Unit {0})
  unfolding equal_fold set_active_run
  handle_run_started none = fail bad_payload
  handle_run_started (some evt) =
      if evt.machine_id == 0
      then return tt
      else if evt.run_id == 0
      then return tt
      else if equal_fold evt.status run_status_running
      then set_active_run evt.machine_id evt.run_id
      else return tt

  -- handleRunFinished
  unfoldable pub handle_run_finished : Option RunLifecycleEvent → Sm (Unit {0})
  unfolding clear_active_run
  handle_run_finished none = fail bad_payload
  handle_run_finished (some evt) =
      if evt.machine_id == 0
      then return tt
      else if evt.run_id == 0
      then return tt
      else clear_active_run evt.machine_id evt.run_id
