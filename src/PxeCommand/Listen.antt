-- ===== src/PxeCommand/Listen.antt =====
-- services/pxe-stack/cmd/pxe/main.go: portsToTry, the loop over it and listenWithRetry. Times and
-- durations are nanoseconds. The port stands for the address; the network and the clock are a
-- parameter.
use goosed.Support.{
  ℕ, zero, suc, ◌+◌, ◌-◌, ◌*◌, ◌≤◌, ◌≡◌, min, Bool, true, false, Option, none, some, List, [], ◌∷◌,
  ◌++◌, ◌==◌, leb, any, if◌then◌else◌,
}
use goosed.Support.Strconv.{ℤ, pos, negsuc}
use goosed.Support.Results.{Result, ok, err}

-- What net.Listen returns: a listener, EADDRINUSE or another error.
pub data Attempt : Type 0 where
  bound in_use failed : Attempt

-- What ends a wait: the timer or the context.
pub data Waited : Type 0 where
  fired cancelled : Waited

pub data ListenError : Type 0 where
  timed_out wait_cancelled not_listening no_port : ListenError

-- net.Listen at a time, and the wait of a duration from a time, with the time after; a clock does not
-- go back, and a timer does not fire early.
pub record Network : Type 0 where
  pub listen : ℕ → ℕ → Attempt × ℕ
  pub wait : ℕ → ℕ → Waited × ℕ
  pub listen_forward : (now port : ℕ) → now ≤ (listen now port).1
  pub wait_fired : (now sleep : ℕ) → (wait now sleep).0 ≡ fired → now + sleep ≤ (wait now sleep).1

abbrev pub max_delay : ℕ
max_delay = 5000000000

-- A duration, or the default in place of one that is not positive.
abbrev pub positive_or : ℕ → ℤ → ℕ
positive_or d (pos zero) = d
positive_or d (pos (suc n)) = suc n
positive_or d (negsuc n) = d

-- The ports of portsToTry after the preferred one; seenPorts has the ports that are there already.
abbrev pub add_fallback : List ℕ → ℕ → List ℕ
add_fallback ports port =
    if port == 0 then ports else if any (λ p. p == port) ports then ports else ports ++ port ∷ []

unfoldable pub add_fallbacks : List ℕ → List ℕ → List ℕ
unfolding any
add_fallbacks ports [] = ports
add_fallbacks ports (port ∷ fallbacks) = add_fallbacks (add_fallback ports port) fallbacks

abbrev pub preferred : ℤ → List ℕ
preferred (pos zero) = []
preferred (pos (suc n)) = suc n ∷ []
preferred (negsuc n) = []

abbrev pub or_default : List ℕ → List ℕ
or_default [] = 8080 ∷ []
or_default (p ∷ ports) = p ∷ ports

-- portsToTry
unfoldable pub ports_to_try : ℤ → List ℕ → List ℕ
unfolding add_fallbacks
ports_to_try port fallbacks = or_default (add_fallbacks (preferred port) fallbacks)

module _ (net : Network) where
  -- What ends listenWithRetry, with the time; none where fuel runs out.
  abbrev pub End : Type 0
  End = Option (Result ListenError (Unit {0}) × ℕ)

  abbrev pub after_wait : (ℕ → End) → Waited × ℕ → End
  after_wait next (cancelled, t) = some (err wait_cancelled, t)
  after_wait next (fired, t) = next t

  -- A round of the loop after net.Listen, and what the next round is from a time on.
  abbrev pub after_attempt : (deadline delay : ℕ) → (ℕ → End) → Attempt × ℕ → End
  after_attempt deadline delay next (bound, t) = some (ok tt, t)
  after_attempt deadline delay next (failed, t) = some (err not_listening, t)
  after_attempt deadline delay next (in_use, t) =
      if leb deadline t
      then some (err timed_out, t)
      else after_wait next (net.wait t (min delay (deadline - t)))

  -- The loop of listenWithRetry from a time on, on fuel.
  unfoldable pub retry : ℕ → (port deadline delay now : ℕ) → End
  retry zero port deadline delay now = none
  retry (suc fuel) port deadline delay now =
      after_attempt deadline delay (λ t. retry fuel port deadline (min (delay * 2) max_delay) t)
        (net.listen now port)

  -- listenWithRetry
  unfoldable pub listen_with_retry : ℕ → ℕ → (max_wait initial_delay : ℤ) → ℕ → End
  unfolding retry
  listen_with_retry fuel port max_wait initial_delay now =
      retry fuel port (now + positive_or 30000000000 max_wait) (positive_or 100000000 initial_delay)
        now

  abbrev pub is_nil : List ℕ → Bool
  is_nil [] = true
  is_nil (p ∷ ports) = false

  -- A round of the loop over portsToTry after listenWithRetry: whether the port was the last one, and
  -- what the next round is from a time on.
  abbrev pub after_listen :
      ℕ → Bool → (ℕ → Option (Result ListenError ℕ × ℕ)) → End → Option (Result ListenError ℕ × ℕ)
  after_listen port last next none = none
  after_listen port last next (some (ok u, t)) = some (ok port, t)
  after_listen port last next (some (err timed_out, t)) =
      if last then some (err timed_out, t) else next t
  after_listen port last next (some (err wait_cancelled, t)) = some (err wait_cancelled, t)
  after_listen port last next (some (err not_listening, t)) = some (err not_listening, t)
  after_listen port last next (some (err no_port, t)) = some (err no_port, t)

  -- The loop over portsToTry: the port that was bound, and the time.
  unfoldable pub bind_ports : ℕ → List ℕ → ℕ → Option (Result ListenError ℕ × ℕ)
  unfolding listen_with_retry
  bind_ports fuel [] now = some (err no_port, now)
  bind_ports fuel (port ∷ ports) now =
      after_listen port (is_nil ports) (λ t. bind_ports fuel ports t)
        (listen_with_retry fuel port (pos 30000000000) (pos 500000000) now)
