-- ===== src/PxeCommand/Passed.antt =====
-- services/pxe-stack/cmd/pxe/main.go: how listenWithRetry and the loop over the ports end.
use goosed.Support.{
  ℕ, zero, suc, ◌+◌, ◌-◌, ◌*◌, ◌≤◌, ◌≡◌, refl, sym, ap, subst, ◌∙◌, min, Option, none, some, List,
  [], ◌∷◌, ◌++◌, leb, Bool-cases, inl, inr, arith, some-injective,
}
use goosed.Support.Strconv.{pos}
use goosed.Support.Results.{Result, ok, err, ok_ne_err, ok-injective}
use goosed.PxeCommand.Listen.{
  Attempt, bound, in_use, failed, Waited, fired, cancelled, ListenError, timed_out, wait_cancelled,
  not_listening, no_port, Network, max_delay, after_wait, after_attempt, retry, listen_with_retry,
  is_nil, after_listen, bind_ports,
}
use goosed.PxeCommand.Bound.{bind_ports_total}

module _ (net : Network) where
  -- net.Listen gave this at some time from `now` on, and `t` is the time after.
  abbrev pub Gave : (port now : ℕ) → Attempt → ℕ → Type 0
  Gave port now a t = (s : ℕ) × (now ≤ s) × (net.listen s port ≡ (a, t))

  -- Why listenWithRetry ended.
  Ended : (port deadline now : ℕ) → Result ListenError (Unit {0}) × ℕ → Type 0
  Ended port deadline now (ok u, t) = Gave port now bound t
  Ended port deadline now (err timed_out, t) = Gave port now in_use t × (deadline ≤ t)
  Ended port deadline now (err not_listening, t) = Gave port now failed t
  Ended port deadline now (err wait_cancelled, t) = Unit {0}
  Ended port deadline now (err no_port, t) = Unit {0}

  earlier-Ended :
      (port deadline now later : ℕ) (r : Result ListenError (Unit {0}) × ℕ)
      → now ≤ later
      → Ended port deadline later r
      → Ended port deadline now r
  unfolding Ended
  earlier-Ended port deadline now later (ok u, t) h (s, l, e) = (s, omega (arith, h, l), e)
  earlier-Ended port deadline now later (err timed_out, t) h ((s, l, e), d) =
      ((s, omega (arith, h, l), e), d)
  earlier-Ended port deadline now later (err not_listening, t) h (s, l, e) =
      (s, omega (arith, h, l), e)
  earlier-Ended port deadline now later (err wait_cancelled, t) h e = tt
  earlier-Ended port deadline now later (err no_port, t) h e = tt

  wait-Ended :
      (port deadline now sleep : ℕ) (next : ℕ → Option (Result ListenError (Unit {0}) × ℕ))
      (r : Result ListenError (Unit {0}) × ℕ) (w : Waited × ℕ)
      → net.wait now sleep ≡ w
      → after_wait net next w ≡ some r
      → ((t : ℕ) → next t ≡ some r → Ended port deadline t r)
      → Ended port deadline now r
  unfolding Ended
  wait-Ended port deadline now sleep next r (cancelled, t) e h g =
      subst (Ended port deadline now) (some-injective h) tt
  wait-Ended port deadline now sleep next r (fired, t) e h g =
      earlier-Ended port deadline now t r
        (omega (arith, net.wait_fired now sleep (ap (λ p. p.0) e), ap (λ p. p.1) e)) (g t h)

  attempt-Ended :
      (port deadline delay now : ℕ) (next : ℕ → Option (Result ListenError (Unit {0}) × ℕ))
      (r : Result ListenError (Unit {0}) × ℕ) (a : Attempt × ℕ)
      → net.listen now port ≡ a
      → after_attempt net deadline delay next a ≡ some r
      → ((t : ℕ) → next t ≡ some r → Ended port deadline t r)
      → Ended port deadline now r
  unfolding Ended
  attempt-Ended port deadline delay now next r (bound, t) e h g =
      subst (Ended port deadline now) (some-injective h) (now, omega arith, e)
  attempt-Ended port deadline delay now next r (failed, t) e h g =
      subst (Ended port deadline now) (some-injective h) (now, omega arith, e)
  attempt-Ended port deadline delay now next r (in_use, t) e h g =
      elim (Bool-cases (leb deadline t)) [
        | inl y ↦
            subst (Ended port deadline now) (some-injective (rw y at h))
              ((now, omega arith, e), ground (arith, y))
        | inr n ↦
            earlier-Ended port deadline now t r
              (omega (arith, net.listen_forward now port, ap (λ p. p.1) e))
              (wait-Ended port deadline t (min delay (deadline - t)) next r _ refl (rw n at h) g)
      ]

  retry-Ended :
      (fuel port deadline delay now : ℕ) (r : Result ListenError (Unit {0}) × ℕ)
      → retry net fuel port deadline delay now ≡ some r
      → Ended port deadline now r
  unfolding retry
  retry-Ended zero port deadline delay now r h = absurd (cc)
  retry-Ended (suc fuel) port deadline delay now r h =
      attempt-Ended port deadline delay now _ r (net.listen now port) refl h
        (λ t g. retry-Ended fuel port deadline (min (delay * 2) max_delay) t r g)

  -- The ports were tried one after the other, and each was in use after 30 s.
  pub data Passed : List ℕ → ℕ → ℕ → Type 0 where
    passed_nil : {t : ℕ} → Passed [] t t
    passed_cons :
        {port : ℕ} {ports : List ℕ} {t u v : ℕ}
        → Gave port t in_use u
        → t + 30000000000 ≤ u
        → Passed ports u v
        → Passed (port ∷ ports) t v

  -- A port of the list that was bound, once all before it had passed.
  pub record Binds (ports : List ℕ) (now port t : ℕ) : Type 0 where
    pub before : List ℕ
    pub after : List ℕ
    pub split_at : ports ≡ before ++ port ∷ after
    pub turn : ℕ
    pub passed : Passed before now turn
    pub gave : Gave port turn bound t

  next-Binds :
      (port : ℕ) (ports : List ℕ) (now u q t : ℕ)
      → Gave port now in_use u
      → now + 30000000000 ≤ u
      → Binds ports u q t
      → Binds (port ∷ ports) now q t
  next-Binds port ports now u q t g d b = record {
    before = port ∷ b.before;
    after = b.after;
    split_at = ap (λ z. port ∷ z) b.split_at;
    turn = b.turn;
    passed = passed_cons g d b.passed;
    gave = b.gave;
  }

  after_listen-Binds :
      (fuel p : ℕ) (ports : List ℕ) (now port t : ℕ)
      (next : (u : ℕ) → bind_ports net fuel ports u ≡ some (ok port, t) → Binds ports u port t)
      (o : Option (Result ListenError (Unit {0}) × ℕ))
      → listen_with_retry net fuel p (pos 30000000000) (pos 500000000) now ≡ o
      → (after_listen net p (is_nil net ports) (λ u. bind_ports net fuel ports u) o)
        ≡ some (ok port, t)
      → Binds (p ∷ ports) now port t
  unfolding listen_with_retry Ended
  after_listen-Binds fuel p ports now port t next none e g = absurd (cc)
  after_listen-Binds fuel p ports now port t next (some (ok u, v)) e g =
      let q : p ≡ port = ok-injective (ap (λ r. r.0) (some-injective g)) in
      let w : v ≡ t = ap (λ r. r.1) (some-injective g) in
      let found : Gave p now bound v = retry-Ended fuel p (now + 30000000000) 500000000 now _ e in
      record {
        before = [];
        after = ports;
        split_at = ap (λ z. z ∷ ports) q;
        turn = now;
        passed = passed_nil;
        gave = subst (λ z. Gave z now bound t) q (subst (Gave p now bound) w found);
      }
  after_listen-Binds fuel p ports now port t next (some (err timed_out, v)) e g =
      elim (Bool-cases (is_nil net ports)) [
        | inl y ↦ absurd (ok_ne_err (sym (ap (λ r. r.0) (some-injective (rw y at g)))))
        | inr n ↦
            let (busy, late) : Gave p now in_use v × (now + 30000000000 ≤ v) =
              retry-Ended fuel p (now + 30000000000) 500000000 now _ e in
            next-Binds p ports now v port t busy late (next v (rw n at g))
      ]
  after_listen-Binds fuel p ports now port t next (some (err wait_cancelled, v)) e g =
      absurd (ok_ne_err (sym (ap (λ r. r.0) (some-injective g))))
  after_listen-Binds fuel p ports now port t next (some (err not_listening, v)) e g =
      absurd (ok_ne_err (sym (ap (λ r. r.0) (some-injective g))))
  after_listen-Binds fuel p ports now port t next (some (err no_port, v)) e g =
      absurd (ok_ne_err (sym (ap (λ r. r.0) (some-injective g))))

  bind_ports-Binds :
      (fuel : ℕ) (ports : List ℕ) (now port t : ℕ)
      → bind_ports net fuel ports now ≡ some (ok port, t)
      → Binds ports now port t
  unfolding bind_ports
  bind_ports-Binds fuel [] now port t h =
      absurd (ok_ne_err (sym (ap (λ r. r.0) (some-injective h))))
  bind_ports-Binds fuel (p ∷ ports) now port t h =
      after_listen-Binds fuel p ports now port t (λ u. bind_ports-Binds fuel ports u port t) _ refl
        h

  -- The loop over the ports ends, with 61 rounds for each; if it binds one, all ports before it in the
  -- list were tried for 30 s each, one after the other, and were in use at the end of that, and the
  -- port was then free.
  pub bind_ports_lem :
      (ports : List ℕ) (now : ℕ)
      → (r : Result ListenError ℕ × ℕ) × (bind_ports net 61 ports now ≡ some r)
        × ((port t : ℕ) → r ≡ (ok port, t) → Binds ports now port t)
  bind_ports_lem ports now =
      let (r, e) = bind_ports_total net ports now in
      (r, e, λ port t h. bind_ports-Binds 61 ports now port t (e ∙ ap some h))
