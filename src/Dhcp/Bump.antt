-- ===== src/Dhcp/Bump.antt =====
-- What the search of `assign` (server.go) comes to in a running server: a counter.
use goosed.Support.{
  ℕ, zero, suc, ◌+◌, ◌≤◌, ◌<◌, ◌≡◌, refl, sym, subst, ap, false, Option, none, some, [], ◌∷◌, inl,
  inr, Bool-cases, arith, ltb, leb, All, All-map, if◌then◌else◌,
}
use goosed.Support.Text.{Text, text_eq_instance}
use goosed.Support.Maps.{Map, lookup, All-insert, All-delete}
use goosed.Dhcp.Ip.{Ip, nil, increment_ip}
use goosed.Dhcp.Ip.Value.{
  IsV4, value, increment_ip-value, clone_ip-eq_self, equal-value, compare_ip-value,
}
use goosed.Dhcp.Handler.{
  Handler, DhcpConfig, Lease, new_server, is_allocated, exhausted, free, scan_up, grant, assign,
  release, search_free, with_lease,
}
use goosed.Dhcp.Server.{
  Request, Reply, MessageType, discover, offer, request, ack, release_lease, handle, respond,
  answer, dispatch,
}
use goosed.Dhcp.Scan.{IsFree}
use goosed.Dhcp.Invariant.{Inv, IsRange, new_server-Inv, grant-Inv, release-Inv}
use goosed.Dhcp.Safety.{Run, here, handled, waited}

abbrev Below : ℕ → Text × Lease → Type 0
Below n e = IsV4 e.1.ip × (value e.1.ip < n)

-- Every lease, in force or not, is of an address before the next one.
pub record IsFresh (h : Handler) : Type 0 where
  pub inv : Inv h
  pub below : All (Below (value h.next_ip)) h.leases

-- The counter: a client without a lease in force gets the next address, until there is none.
abbrev pub bump_next : Handler → Text → ℕ → Ip × Handler
bump_next h mac now =
    if leb (value h.next_ip) (value h.end_ip)
    then (h.next_ip, grant h mac now h.next_ip)
    else (nil, h)

abbrev pub bump_lease : Handler → Text → ℕ → Option Lease → Ip × Handler
bump_lease h mac now none = bump_next h mac now
bump_lease h mac now (some l) = if ltb now l.expires_at then (l.ip, h) else bump_next h mac now

unfoldable pub bump : Handler → Text → ℕ → Ip × Handler
unfolding lookup
bump h mac now = bump_lease h mac now (lookup mac h.leases)

not_allocated :
    (m : Map Text Lease) (now : ℕ) (x : Ip)
    → IsV4 x
    → All (Below (value x)) m
    → is_allocated m now x ≡ false
unfolding is_allocated
not_allocated [] now x v a = refl
not_allocated ((j, w) ∷ m) now x v a =
    ground (arith, equal-value v a.0.0, not_allocated m now x v a.1)

module _ (s : Ip → Text) (h : Handler) (mac : Text) (now : ℕ) (i : IsFresh h) where
  scan_up_next :
      (fuel : ℕ)
      → scan_up s (suc fuel) h now h.next_ip
        ≡ some (if leb (value h.next_ip) (value h.end_ip) then free h.next_ip else exhausted)
  unfolding scan_up
  scan_up_next fuel = ground (
    arith,
    compare_ip-value s i.inv.next_v4 i.inv.end_v4,
    not_allocated h.leases now h.next_ip i.inv.next_v4 i.below,
  )

  search_bump : (fuel : ℕ) → search_free s (suc fuel) h mac now ≡ some (bump_next h mac now)
  search_bump fuel = elim (Bool-cases (leb (value h.next_ip) (value h.end_ip))) [
    | inl y ↦ rw (clone_ip-eq_self h.next_ip, scan_up_next fuel, y)
    | inr n ↦ rw (clone_ip-eq_self h.next_ip, scan_up_next fuel, n)
  ]

  leased_bump :
      (fuel : ℕ) (o : Option Lease)
      → with_lease s (suc fuel) h mac now o ≡ some (bump_lease h mac now o)
  leased_bump fuel none = search_bump fuel
  leased_bump fuel (some l) = elim (Bool-cases (ltb now l.expires_at)) [
    | inl y ↦ rw y
    | inr n ↦ rw n (search_bump fuel)
  ]

  assign-bump_fresh : (fuel : ℕ) → assign s (suc fuel) h mac now ≡ some (bump h mac now)
  unfolding assign bump
  assign-bump_fresh fuel = leased_bump fuel (lookup mac h.leases)

  -- With no fuel a call returns at most what the counter does.
  abbrev AsBump : Option (Ip × Handler) → Type 0
  AsBump none = Unit {0}
  AsBump (some r) = r ≡ bump h mac now

  unfuelled_bump :
      (o : Option Lease) → lookup mac h.leases ≡ o → AsBump (with_lease s 0 h mac now o)
  unfolding scan_up bump
  unfuelled_bump none e = tt
  unfuelled_bump (some l) e = elim (Bool-cases (ltb now l.expires_at)) [
    | inl y ↦ rw y (rw (e, y))
    | inr n ↦ rw n tt
  ]

  assign-AsBump : (fuel : ℕ) → AsBump (assign s fuel h mac now)
  unfolding assign
  assign-AsBump zero = unfuelled_bump (lookup mac h.leases) refl
  assign-AsBump (suc fuel) = rw (assign-bump_fresh fuel) refl

  next_IsFree : value h.next_ip ≤ value h.end_ip → IsFree h now h.start_ip h.next_ip
  next_IsFree l = record {
    v4 = i.inv.next_v4;
    low = i.inv.start_le_next;
    high = l;
    unleased = not_allocated h.leases now h.next_ip i.inv.next_v4 i.below;
  }

  grant-IsFresh : value h.next_ip ≤ value h.end_ip → IsFresh (grant h mac now h.next_ip)
  unfolding grant
  grant-IsFresh l =
      let p : value (increment_ip h.next_ip) ≡ value h.next_ip + 1 =
        increment_ip-value i.inv.next_v4 (omega (arith, i.inv.end_below)) in
      record {
        inv = grant-Inv mac now h.next_ip i.inv (next_IsFree l);
        below =
            All-insert _ mac _ h.leases (i.inv.next_v4, omega arith)
              (All-map _ _ (λ e b. (b.0, omega (arith, b.1))) h.leases i.below);
      }

  bump_next-IsFresh : IsFresh (bump_next h mac now).1
  bump_next-IsFresh = elim (Bool-cases (leb (value h.next_ip) (value h.end_ip))) [
    | inl y ↦ rw y (grant-IsFresh (ground arith))
    | inr n ↦ rw n i
  ]

  bump_lease-IsFresh : (o : Option Lease) → IsFresh (bump_lease h mac now o).1
  bump_lease-IsFresh none = bump_next-IsFresh
  bump_lease-IsFresh (some l) = elim (Bool-cases (ltb now l.expires_at)) [
    | inl y ↦ rw y i
    | inr n ↦ rw n bump_next-IsFresh
  ]

  bump-IsFresh : IsFresh (bump h mac now).1
  unfolding bump
  bump-IsFresh = bump_lease-IsFresh (lookup mac h.leases)

release-IsFresh : {h : Handler} (mac : Text) → IsFresh h → IsFresh (release h mac)
unfolding release
release-IsFresh {h} mac i = record {
  inv = release-Inv mac i.inv;
  below = All-delete _ mac h.leases i.below;
}

new_server-IsFresh : (cfg : DhcpConfig) → IsRange cfg → IsFresh (new_server cfg)
unfolding new_server
new_server-IsFresh cfg r = record { inv = new_server-Inv cfg r; below = tt }

module _ {Base : Type 0} (ip_string : Ip → Text) (new_reply : Request → Option Base) where
  abbrev AllFresh : Option (Option (Reply Base) × Handler) → Type 0
  AllFresh none = Unit {0}
  AllFresh (some (_, h')) = IsFresh h'

  answer-IsFresh :
      (h : Handler) (now : ℕ) (req : Request) (t : MessageType) (i : IsFresh h)
      → (r : Option (Ip × Handler)) → AsBump ip_string h req.client_hw_addr now i r
      → AllFresh (answer ip_string new_reply req t r)
  answer-IsFresh h now req t i none p = tt
  answer-IsFresh h now req t i (some (ip, h')) p =
      subst IsFresh (sym (ap (λ (r : Ip × Handler). r.1) p))
        (bump-IsFresh ip_string h req.client_hw_addr now i)

  dispatch-IsFresh :
      (m : MessageType) (fuel : ℕ) (h : Handler) (now : ℕ) (req : Request)
      → IsFresh h
      → AllFresh (dispatch ip_string new_reply m fuel h now req)
  unfolding respond
  dispatch-IsFresh discover fuel h now req i =
      answer-IsFresh h now req offer i _ (assign-AsBump ip_string h req.client_hw_addr now i fuel)
  dispatch-IsFresh request fuel h now req i =
      answer-IsFresh h now req ack i _ (assign-AsBump ip_string h req.client_hw_addr now i fuel)
  dispatch-IsFresh release_lease fuel h now req i = release-IsFresh req.client_hw_addr i
  dispatch-IsFresh _ fuel h now req i = i

  handle-IsFresh :
      (fuel : ℕ) (h : Handler) (now : ℕ) (req : Request)
      → IsFresh h
      → AllFresh (handle ip_string new_reply fuel h now req)
  unfolding handle
  handle-IsFresh fuel h now req i = dispatch-IsFresh req.message_type fuel h now req i

  Run-IsFresh :
      {h₀ : Handler} {t₀ : ℕ} {h : Handler} {now : ℕ}
      → IsFresh h₀
      → Run ip_string new_reply h₀ t₀ h now
      → IsFresh h
  Run-IsFresh i here = i
  Run-IsFresh i (waited p l) = Run-IsFresh i p
  Run-IsFresh i (handled {h} {now} {h'} p fuel req reply e) =
      rw e at (handle-IsFresh fuel h now req (Run-IsFresh i p))

  -- In every state that a server reaches whose range is IPv4, in order and ends before
  -- 255.255.255.255, `assign` is the counter: with fuel for one round it keeps a lease in force,
  -- else gives the next address, and nil past the end of the range, whatever was released.
  pub assign-bump :
      {cfg : DhcpConfig} {t₀ : ℕ} {h : Handler} {now : ℕ}
      → IsRange cfg
      → Run ip_string new_reply (new_server cfg) t₀ h now
      → (fuel : ℕ) (mac : Text) → assign ip_string (suc fuel) h mac now ≡ some (bump h mac now)
  assign-bump {cfg} {h = h} {now = now} r p fuel mac =
      assign-bump_fresh ip_string h mac now (Run-IsFresh (new_server-IsFresh cfg r) p) fuel
