-- ===== src/PxeCommand/Tests.antt =====
-- Runs of the search for a port, and its theorems at concrete inputs.
use goosed.Support.{ℕ, ◌+◌, ◌≡◌, ◌≢◌, refl, some, [], ◌∷◌, ◌==◌, any, if◌then◌else◌, arith}
use goosed.Support.Strconv.{pos}
use goosed.Support.Results.{Result, ok}
use goosed.PxeCommand.Listen.{
  bound, in_use, fired, ListenError, Network, add_fallbacks, ports_to_try, retry, listen_with_retry,
  bind_ports,
}
use goosed.PxeCommand.Ports.{Distinct, ports_to_try-Distinct}
use goosed.PxeCommand.Passed.{Binds, bind_ports_lem}

-- Another program has port 8080.
abbrev test_network : Network
test_network = record {
  listen = λ now port. (if port == 8080 then in_use else bound, now + 1);
  wait = λ now sleep. (fired, now + sleep);
  listen_forward = λ now port. omega arith;
  wait_fired = λ now sleep e. omega arith;
}

ports_run : ports_to_try (pos 8080) (8080 ∷ 0 ∷ 8081 ∷ 8081 ∷ []) ≡ 8080 ∷ 8081 ∷ []
unfolding ports_to_try add_fallbacks any
ports_run = refl

binds_run : bind_ports test_network 61 (8080 ∷ 8081 ∷ []) 0 ≡ some (ok 8081, 30000000002)
unfolding bind_ports listen_with_retry retry
binds_run = refl

ports_to_try-Distinct_example :
    (ports_to_try (pos 8080) (8080 ∷ 0 ∷ 8081 ∷ []) ≢ [])
    × Distinct (ports_to_try (pos 8080) (8080 ∷ 0 ∷ 8081 ∷ []))
ports_to_try-Distinct_example = ports_to_try-Distinct (pos 8080) (8080 ∷ 0 ∷ 8081 ∷ [])

bind_ports_lem_example :
    (r : Result ListenError ℕ × ℕ) × (bind_ports test_network 61 (8080 ∷ 8081 ∷ []) 0 ≡ some r)
    × ((port t : ℕ) → r ≡ (ok port, t) → Binds test_network (8080 ∷ 8081 ∷ []) 0 port t)
bind_ports_lem_example = bind_ports_lem test_network (8080 ∷ 8081 ∷ []) 0
