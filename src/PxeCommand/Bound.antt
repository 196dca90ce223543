-- ===== src/PxeCommand/Bound.antt =====
-- services/pxe-stack/cmd/pxe/main.go: the rounds of listenWithRetry.
use goosed.Support.{
  ℕ, zero, suc, ◌+◌, ◌-◌, ◌*◌, ◌≤◌, ◌<◌, ◌≡◌, refl, min, Bool, true, false, Option, none, some,
  List, [], ◌∷◌, leb, Bool-cases, inl, inr, arith,
}
use goosed.Support.Strconv.{ℤ, pos}
use goosed.Support.Results.{Result, ok, err}
use goosed.PxeCommand.Listen.{
  Attempt, bound, in_use, failed, Waited, fired, cancelled, ListenError, timed_out, wait_cancelled,
  not_listening, no_port, Network, max_delay, positive_or, after_wait, after_attempt, retry,
  listen_with_retry, is_nil, after_listen, bind_ports,
}

module _ (net : Network) where
  abbrev Total : Option (Result ListenError (Unit {0}) × ℕ) → Type 0
  Total o = (r : Result ListenError (Unit {0}) × ℕ) × (o ≡ some r)

  wait-Total :
      (next : ℕ → Option (Result ListenError (Unit {0}) × ℕ)) (w : Waited × ℕ)
      → (w.0 ≡ fired → Total (next w.1))
      → Total (after_wait net next w)
  wait-Total next (cancelled, t) h = ((err wait_cancelled, t), refl)
  wait-Total next (fired, t) h = h refl

  attempt-Total :
      (deadline delay : ℕ) (next : ℕ → Option (Result ListenError (Unit {0}) × ℕ)) (a : Attempt × ℕ)
      → ((t : ℕ) → a.1 < deadline → a.1 + min delay (deadline - a.1) ≤ t → Total (next t))
      → Total (after_attempt net deadline delay next a)
  attempt-Total deadline delay next (bound, t) h = ((ok tt, t), refl)
  attempt-Total deadline delay next (failed, t) h = ((err not_listening, t), refl)
  attempt-Total deadline delay next (in_use, t) h = elim (Bool-cases (leb deadline t)) [
    | inl y ↦ rw y ((err timed_out, t), refl)
    | inr n ↦ rw n (
        wait-Total next (net.wait t (min delay (deadline - t)))
          (λ f. h _ (ground (arith, n)) (net.wait_fired t (min delay (deadline - t)) f)))
  ]

  -- As many rounds as delays fit into the time that is left, and one more, are enough.
  retry-Total :
      (k port deadline step delay now : ℕ)
      → step ≤ max_delay
      → step ≤ delay
      → deadline - now ≤ k * step
      → Total (retry net (suc k) port deadline delay now)
  unfolding retry
  retry-Total zero port deadline step delay now m s d =
      attempt-Total deadline delay _ (net.listen now port)
        (λ t l w. absurd (omega (arith, net.listen_forward now port, d, l)))
  retry-Total (suc k) port deadline step delay now m s d =
      attempt-Total deadline delay _ (net.listen now port) (λ t l w.
        retry-Total k port deadline step (min (delay * 2) max_delay) t m (omega (arith, m, s))
          (omega (arith, net.listen_forward now port, d, l, w, s)))

  -- listenWithRetry ends: if its two durations are D and d, after defaults, and k times the smaller of d
  -- and 5 s is at least D, it makes at most k + 1 attempts.
  pub listen_with_retry_total :
      (k port : ℕ) (max_wait initial_delay : ℤ) (now : ℕ)
      → positive_or 30000000000 max_wait ≤ k * min (positive_or 100000000 initial_delay) max_delay
      → (r : Result ListenError (Unit {0}) × ℕ) × (listen_with_retry net
            (suc k)
            port
            max_wait
            initial_delay
            now
          ≡ some r)
  unfolding listen_with_retry
  listen_with_retry_total k port max_wait initial_delay now h =
      let delay = positive_or 100000000 initial_delay in
      retry-Total k port (now + positive_or 30000000000 max_wait) (min delay max_delay) delay now
        (omega arith) (omega arith) (omega (arith, h))

  next-Total :
      (port : ℕ) (last : Bool) (next : ℕ → Option (Result ListenError ℕ × ℕ))
      (o : Option (Result ListenError (Unit {0}) × ℕ))
      → Total o
      → ((t : ℕ) → (r : Result ListenError ℕ × ℕ) × (next t ≡ some r))
      → (r : Result ListenError ℕ × ℕ) × (after_listen net port last next o ≡ some r)
  next-Total port last next none (r, e) h = absurd (cc)
  next-Total port last next (some (ok u, t)) s h = ((ok port, t), refl)
  next-Total port true next (some (err timed_out, t)) s h = ((err timed_out, t), refl)
  next-Total port false next (some (err timed_out, t)) s h = h t
  next-Total port last next (some (err wait_cancelled, t)) s h = ((err wait_cancelled, t), refl)
  next-Total port last next (some (err not_listening, t)) s h = ((err not_listening, t), refl)
  next-Total port last next (some (err no_port, t)) s h = ((err no_port, t), refl)

  -- 61 rounds for each port are enough.
  pub bind_ports_total :
      (ports : List ℕ) (now : ℕ)
      → (r : Result ListenError ℕ × ℕ) × (bind_ports net 61 ports now ≡ some r)
  unfolding bind_ports
  bind_ports_total [] now = ((err no_port, now), refl)
  bind_ports_total (port ∷ ports) now =
      next-Total port (is_nil net ports) (λ t. bind_ports net 61 ports t) _
        (listen_with_retry_total 60 port (pos 30000000000) (pos 500000000) now (omega arith))
        (λ t. bind_ports_total ports t)
