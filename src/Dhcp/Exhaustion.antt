-- ===== src/Dhcp/Exhaustion.antt =====
-- What becomes of a handler whose next address has passed the end of its range: the first loop of
-- `assign` (server.go) returns before the second one is reached.
use goosed.Support.{
  ℕ, zero, suc, ◌≤◌, ◌<◌, ◌≡◌, ◌⊎◌, refl, Option, none, some, inl, inr, Bool-cases, arith, ltb,
}
use goosed.Support.Text.{Text, text_eq_instance}
use goosed.Support.Maps.{lookup, delete_cases}
use goosed.Dhcp.Ip.{Ip, nil}
use goosed.Dhcp.Ip.Value.{value, increment_ip-value, clone_ip-eq_self}
use goosed.Dhcp.Handler.{Handler, Lease, scan_up, grant, assign, release, search_free, with_lease}
use goosed.Dhcp.Server.{
  Request, Reply, MessageType, discover, offer, request, ack, release_lease, handle, respond,
  answer, dispatch,
}
use goosed.Dhcp.Scan.{IsFree, scan_up_past}
use goosed.Dhcp.Invariant.{Inv, grant-Inv, release-Inv}
use goosed.Dhcp.Safety.{Run, here, handled, waited}

-- The next address has passed the end of the range.
pub record IsSpent (h : Handler) : Type 0 where
  pub inv : Inv h
  pub past : value h.end_ip < value h.next_ip

-- Giving out the last address of the range spends the pool.
pub grant-IsSpent :
    {h : Handler} (mac : Text) (now : ℕ) (x : Ip)
    → Inv h
    → IsFree h now h.start_ip x
    → value x ≡ value h.end_ip
    → IsSpent (grant h mac now x)
unfolding grant
grant-IsSpent {h} mac now x i f p = record {
  inv = unfold grant in grant-Inv mac now x i f;
  past = omega (arith, increment_ip-value f.v4 (omega (arith, i.end_below)));
}

module _ (s : Ip → Text) (fuel : ℕ) (h : Handler) (mac : Text) (now : ℕ) (i : IsSpent h) where
  search_spent : search_free s (suc fuel) h mac now ≡ some (nil, h)
  search_spent = rw (
    clone_ip-eq_self h.next_ip,
    scan_up_past s h now i.inv.end_v4 i.inv.end_below fuel h.next_ip i.inv.next_v4 i.past,
  )

  leased_spent :
      (o : Option Lease)
      → lookup mac h.leases ≡ o
      → (with_lease s (suc fuel) h mac now o ≡ some (nil, h))
        ⊎ ((l : Lease) × (o ≡ some l)
            × (now < l.expires_at)
            × (with_lease s (suc fuel) h mac now o ≡ some (l.ip, h)))
  leased_spent none e = inl search_spent
  leased_spent (some l) e = elim (Bool-cases (ltb now l.expires_at)) [
    | inl y ↦ inr (l, refl, ground arith, rw y)
    | inr n ↦ inl (rw n search_spent)
  ]

  -- A spent pool serves the clients that hold a lease in force, and nobody else, and no request
  -- changes it.
  pub assign_spent :
      (assign s (suc fuel) h mac now ≡ some (nil, h))
      ⊎ ((l : Lease) × (lookup mac h.leases ≡ some l)
          × (now < l.expires_at)
          × (assign s (suc fuel) h mac now ≡ some (l.ip, h)))
  unfolding assign
  assign_spent = leased_spent (lookup mac h.leases) refl

-- A state that the call leaves is the state that it found.
abbrev Same : Handler → Option (Ip × Handler) → Type 0
Same h none = Unit {0}
Same h (some (_, h')) = h' ≡ h

module _ (s : Ip → Text) (h : Handler) (mac : Text) (now : ℕ) (i : IsSpent h) where
  search_unfuelled : search_free s 0 h mac now ≡ none
  unfolding scan_up
  search_unfuelled = refl

  leased_Same : (o : Option Lease) → Same h (with_lease s 0 h mac now o)
  leased_Same none = rw search_unfuelled tt
  leased_Same (some l) = elim (Bool-cases (ltb now l.expires_at)) [
    | inl y ↦ rw y refl
    | inr n ↦ rw (n, search_unfuelled) tt
  ]

  assign-Same : (fuel : ℕ) → Same h (assign s fuel h mac now)
  unfolding assign
  assign-Same zero = leased_Same (lookup mac h.leases)
  assign-Same (suc fuel) = elim (assign_spent s fuel h mac now i) [
    | inl e ↦ rw e refl
    | inr (_, _, _, e) ↦ rw e refl
  ]

-- The state is still spent, and no lease is new.
pub record Stays (h h' : Handler) : Type 0 where
  pub spent : IsSpent h'
  pub shrinks : (k : Text) (l : Lease) → lookup k h'.leases ≡ some l → lookup k h.leases ≡ some l

Stays-refl : {h h' : Handler} → IsSpent h → h' ≡ h → Stays h h'
Stays-refl {h} i p = rw p (record { spent = i; shrinks = λ k l e. e })

Stays-release : {h : Handler} (mac : Text) → IsSpent h → Stays h (release h mac)
unfolding release
Stays-release {h} mac i = record {
  spent = record { inv = unfold release in release-Inv mac i.inv; past = i.past };
  shrinks = λ k l e. (delete_cases mac k l h.leases e).1;
}

module _ {Base : Type 0} (ip_string : Ip → Text) (new_reply : Request → Option Base) where
  abbrev AllStay : Handler → Option (Option (Reply Base) × Handler) → Type 0
  AllStay h none = Unit {0}
  AllStay h (some (_, h')) = Stays h h'

  answer-Stays :
      (h : Handler) (req : Request) (t : MessageType)
      → IsSpent h
      → (r : Option (Ip × Handler)) → Same h r
      → AllStay h (answer ip_string new_reply req t r)
  answer-Stays h req t i none p = tt
  answer-Stays h req t i (some (ip, h')) p = Stays-refl i p

  dispatch-Stays :
      (m : MessageType) (fuel : ℕ) (h : Handler) (now : ℕ) (req : Request)
      → IsSpent h
      → AllStay h (dispatch ip_string new_reply m fuel h now req)
  unfolding respond
  dispatch-Stays discover fuel h now req i =
      answer-Stays h req offer i _ (assign-Same ip_string h req.client_hw_addr now i fuel)
  dispatch-Stays request fuel h now req i =
      answer-Stays h req ack i _ (assign-Same ip_string h req.client_hw_addr now i fuel)
  dispatch-Stays release_lease fuel h now req i = Stays-release req.client_hw_addr i
  dispatch-Stays _ fuel h now req i = Stays-refl i refl

  handle-Stays :
      (fuel : ℕ) (h : Handler) (now : ℕ) (req : Request)
      → IsSpent h
      → AllStay h (handle ip_string new_reply fuel h now req)
  unfolding handle
  handle-Stays fuel h now req i = dispatch-Stays req.message_type fuel h now req i

  Run-Stays :
      {h₀ : Handler} {t₀ : ℕ} {h : Handler} {now : ℕ}
      → IsSpent h₀
      → Run ip_string new_reply h₀ t₀ h now
      → Stays h₀ h
  Run-Stays i here = Stays-refl i refl
  Run-Stays i (waited p l) = Run-Stays i p
  Run-Stays i (handled {h} {now} {h'} p fuel req reply e) =
      let a = Run-Stays i p in
      let b : Stays h h' = rw e at (handle-Stays fuel h now req a.spent) in
      record { spent = b.spent; shrinks = λ k l q. a.shrinks k l (b.shrinks k l q) }

  -- From a state that keeps the invariant and whose next address has passed the end of the range,
  -- the server is lost: whatever messages and time pass, once each lease of that moment has run out
  -- or is no longer there, no client gets an address, with fuel for one round.
  pub Run-denied :
      {h₀ : Handler} {t₀ : ℕ} {h : Handler} {now : ℕ}
      → IsSpent h₀
      → Run ip_string new_reply h₀ t₀ h now
      → ((k : Text) (l : Lease)
          → lookup k h₀.leases ≡ some l
          → (l.expires_at ≤ now) ⊎ (lookup k h.leases ≡ none))
      → (fuel : ℕ) (mac : Text) → assign ip_string (suc fuel) h mac now ≡ some (nil, h)
  Run-denied {h} {now} i p gone fuel mac =
      let a = Run-Stays i p in
      elim (assign_spent ip_string fuel h mac now a.spent) [
        | inl e ↦ e
        | inr (l, e, t, _) ↦ elim (gone mac l (a.shrinks mac l e)) [
          | inl o ↦ absurd (omega arith)
          | inr f ↦ absurd (cc)
        ]
      ]
