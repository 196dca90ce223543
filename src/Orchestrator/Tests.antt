-- ===== src/Orchestrator/Tests.antt =====
-- Runs of the state machine over a table in memory, and each theorem at an input.
use goosed.Support.{
  ℕ, ◌⊎◌, ◌≡◌, ◌≢◌, refl, true, Option, none, some, List, [], ◌∷◌, ◌++◌, inl, inr, arith, ◌==◌,
  nat_eq,
}
use goosed.Support.Text.{lit, text_eq, text_eq_instance}
use goosed.Support.Maps.{Map, lookup, insert, delete}
use goosed.Support.Results.{ok, err}
use goosed.Gorm.Table.{updated}
use goosed.Gorm.InMemory.{in_memory, best}
use goosed.Bus.{wire, nats_error}
use goosed.Orchestrator.Handlers.{
  RunModel, run_status_running, run_status_success, MachineEnrolledEvent, AgentFactsEvent,
  RunLifecycleEvent, Message, run_started, run_finished, publishing, text, succeed,
  is_post_install_done, StateMachine, handle_machine_enrolled, handle_agent_facts,
  handle_run_started, handle_run_finished,
}
use goosed.Orchestrator.Enrollment.{new_run, Tracked, Enrolled, handle_machine_enrolled-Enrolled}
use goosed.Orchestrator.Redelivery.{enrolled_twice, announcement_failed}
use goosed.Orchestrator.Completion.{FactsOutcome, handle_agent_facts-FactsOutcome}
use goosed.Orchestrator.Lifecycle.{provisioning}

abbrev State : Type 0
State = StateMachine in_memory (wire Message)

abbrev state : Map ℕ ℕ → List RunModel → List Message → Option ℕ → State
state runs rows messages down = record {
  active_runs = runs;
  db = rows;
  js = record { messages = messages; down = down };
}

abbrev machine : MachineEnrolledEvent
machine = record { machine_id = 7 }

abbrev done : AgentFactsEvent
done = record { machine_id = 7; snapshot = (lit "postinstall_done", text (lit "True")) ∷ [] }

abbrev run_row : RunModel
run_row = new_run 7 1 100

abbrev start_message : Message
start_message = run_started 1 7 run_status_running 100

abbrev running : State
running = state ((7, 1) ∷ []) (run_row ∷ []) (start_message ∷ []) none

abbrev finished : State
finished =
    state [] (succeed in_memory (wire Message) 200 run_row ∷ [])
      (start_message ∷ run_finished 1 7 run_status_success 200 ∷ []) none

program : Unit {0}
unfolding handle_machine_enrolled handle_agent_facts handle_run_started handle_run_finished best
    updated insert delete lookup text_eq is_post_install_done
program = tt

enrolls :
    handle_machine_enrolled in_memory (wire Message) (some machine) 1 100 (state [] [] [] none)
    ≡ (ok tt, running)
unfolding program
enrolls = refl

completes : handle_agent_facts in_memory (wire Message) (some done) 200 running ≡ (ok tt, finished)
unfolding program
completes = refl

handle_machine_enrolled-Enrolled_example :
    (machine.machine_id ≢ 0)
    × Enrolled in_memory (wire Message) 7 1 100 (state [] [] [] none) running
handle_machine_enrolled-Enrolled_example =
    handle_machine_enrolled-Enrolled in_memory (wire Message) machine 1 100 (state [] [] [] none)
      enrolls

enrolled_twice_example : (running.db ≡ running.db) × (running.js.messages ≡ running.js.messages)
unfolding program
enrolled_twice_example =
    enrolled_twice in_memory (wire Message) machine 1 100 2 101 (state [] [] [] none) enrolls refl

-- The bus is down while the machine is enrolled.
abbrev silent : State
silent = state ((7, 1) ∷ []) (run_row ∷ []) [] (some 5)

bus_fails :
    handle_machine_enrolled in_memory (wire Message) (some machine) 1 100 (state [] [] [] (some 5))
    ≡ (err (publishing (nats_error 5)), silent)
unfolding program
bus_fails = refl

announcement_failed_example :
    (silent.db ≡ run_row ∷ [])
    × (lookup 7 silent.active_runs ≡ some 1)
    × ((silent.js.messages ≡ [])
        ⊎ (silent.js.messages ≡ run_started 1 7 run_status_running 100 ∷ []))
    × (handle_machine_enrolled in_memory (wire Message) (some machine) 2 300 silent
        ≡ (ok tt, silent))
announcement_failed_example =
    announcement_failed in_memory (wire Message) machine 1 100 2 300 (state [] [] [] (some 5))
      (omega arith) bus_fails

handle_agent_facts-FactsOutcome_example :
    FactsOutcome in_memory (wire Message) done 200 running finished
handle_agent_facts-FactsOutcome_example =
    handle_agent_facts-FactsOutcome in_memory (wire Message) done 200 running completes

abbrev lifecycle : ℕ → RunLifecycleEvent
lifecycle r = record { run_id = r; machine_id = 7; status = lit "RUNNING" }

idle : ¬ Tracked in_memory (wire Message) 7 (state [] [] [] none)
unfolding lookup
idle (inl a) = cc
idle (inr n) = n tt

done_says_so : is_post_install_done done.snapshot ≡ true
unfolding program
done_says_so = refl

provisioning_example :
    (finished.db ≡ updated (λ r. r.id == 1) (succeed in_memory (wire Message) 200) (run_row ∷ []))
    × (finished.js.messages ≡ (start_message ∷ []) ++ run_finished 1 7 run_status_success 200 ∷ [])
    × (lookup 7 finished.active_runs ≢ some 1)
provisioning_example =
    provisioning in_memory (wire Message) machine done 1 100 200 (state [] [] [] none) (omega arith)
      refl done_says_so idle enrolls completes
