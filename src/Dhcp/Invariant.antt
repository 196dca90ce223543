-- ===== src/Dhcp/Invariant.antt =====
-- What holds of the handler between two messages, and what one call of `assign` does.
use goosed.Support.{
  ℕ, ◌+◌, ◌≤◌, ◌<◌, ◌≡◌, refl, ap, false, Option, none, some, [], ◌∷◌, inl, inr, Bool-cases, arith,
  ltb,
}
use goosed.Support.Text.{Text, text_eq_instance}
use goosed.Support.Maps.{Map, lookup, insert_cases, delete_cases}
use goosed.Dhcp.Ip.{to4, Ip, nil, equal}
use goosed.Dhcp.Ip.Value.{IsV4, value, top, clone_ip-eq_self, increment_ip-value, increment_ip-IsV4}
use goosed.Dhcp.Handler.{
  Handler, DhcpConfig, Lease, new_server, is_allocated, Scan, exhausted, free, wrapped, scan_up,
  scan_all, grant, assign, release, finish?, after_first, search_free, with_lease,
}
use goosed.Dhcp.Scan.{
  IsFree, IsFull, ScanResult, scan_up-result, scan_all-result, scan_up_exhausted,
}

pub record Inv (h : Handler) : Type 0 where
  pub start_v4 : IsV4 h.start_ip
  pub end_v4 : IsV4 h.end_ip
  pub next_v4 : IsV4 h.next_ip
  pub end_below : value h.end_ip < top
  pub start_le_next : value h.start_ip ≤ value h.next_ip
  pub next_le : value h.next_ip ≤ value h.end_ip + 1
  pub leased_v4 : (k : Text) (l : Lease) → lookup k h.leases ≡ some l → IsV4 l.ip
  pub leased_in :
      (k : Text) (l : Lease)
      → lookup k h.leases ≡ some l
      → (value h.start_ip ≤ value l.ip) × (value l.ip ≤ value h.end_ip)

-- The client `mac` has no lease that lasts beyond `now`.
abbrev pub NoLease : Handler → Text → ℕ → Type 0
NoLease h mac now = (l : Lease) → lookup mac h.leases ≡ some l → l.expires_at ≤ now

-- The three ways in which `assign` ends.
pub data Outcome (h : Handler) (mac : Text) (now : ℕ) : Ip → Handler → Type 0 where
  kept : (l : Lease) → lookup mac h.leases ≡ some l → now < l.expires_at → Outcome h mac now l.ip h
  fresh :
      (x : Ip)
      → NoLease h mac now
      → IsFree h now h.start_ip x
      → Outcome h mac now x (grant h mac now x)
  denied :
      NoLease h mac now
      → (value h.next_ip ≤ value h.end_ip → IsFull h now h.start_ip)
      → Outcome h mac now nil h

abbrev pub AssignResult : Handler → Text → ℕ → Option (Ip × Handler) → Type 0
AssignResult h mac now none = Unit {0}
AssignResult h mac now (some (ip, h')) = Outcome h mac now ip h'

module _ (s : Ip → Text) (fuel : ℕ) (h : Handler) (mac : Text) (now : ℕ) (i : Inv h) where
  second-Outcome :
      NoLease h mac now
      → (r : Option Scan) → ScanResult h now h.start_ip r
      → AssignResult h mac now (finish? s h mac now r)
  second-Outcome nl none f = tt
  second-Outcome nl (some exhausted) f = denied nl (λ _. f)
  second-Outcome nl (some wrapped) f = denied nl (λ _. f.0)
  second-Outcome nl (some (free x)) f = fresh x nl f

  first-Outcome :
      NoLease h mac now
      → (r : Option Scan) → ScanResult h now h.next_ip r
      → (r ≡ some exhausted → value h.end_ip < value h.next_ip)
      → AssignResult h mac now (after_first s fuel h mac now r)
  first-Outcome nl none f g = tt
  first-Outcome nl (some exhausted) f g = denied nl (λ l. absurd (omega (arith, g refl)))
  first-Outcome nl (some wrapped) f g = rw (clone_ip-eq_self h.start_ip) (
      second-Outcome nl (scan_all s fuel h now h.start_ip)
        (scan_all-result s h now i.end_v4 i.end_below fuel h.start_ip i.start_v4))
  first-Outcome nl (some (free x)) f g = fresh x nl (record {
    v4 = f.v4;
    low = omega (arith, f.low, i.start_le_next);
    high = f.high;
    unleased = f.unleased;
  })

  search-Outcome : NoLease h mac now → AssignResult h mac now (search_free s fuel h mac now)
  search-Outcome nl = rw (clone_ip-eq_self h.next_ip) (
      first-Outcome nl (scan_up s fuel h now h.next_ip)
        (scan_up-result s h now i.end_v4 i.end_below fuel h.next_ip i.next_v4)
        (scan_up_exhausted s h now i.end_v4 i.end_below fuel h.next_ip i.next_v4))

  leased-Outcome :
      (o : Option Lease)
      → lookup mac h.leases ≡ o
      → AssignResult h mac now (with_lease s fuel h mac now o)
  leased-Outcome none e = search-Outcome (λ l p. cc)
  leased-Outcome (some l) e = elim (Bool-cases (ltb now l.expires_at)) [
    | inl y ↦ rw y (kept l e (ground arith))
    | inr n ↦ rw n (search-Outcome (λ l' p. ground (arith, e, p)))
  ]

  pub assign-Outcome : AssignResult h mac now (assign s fuel h mac now)
  unfolding assign
  assign-Outcome = leased-Outcome (lookup mac h.leases) refl

-- An address that no lease holds differs from that of every lease in force.
pub is_allocated-false :
    (m : Map Text Lease) (now : ℕ) (x : Ip) (k : Text) (l : Lease)
    → is_allocated m now x ≡ false
    → lookup k m ≡ some l
    → now < l.expires_at
    → equal x l.ip ≡ false
unfolding is_allocated lookup
is_allocated-false [] now x k l f e t = cc
is_allocated-false ((j, w) ∷ m) now x k l f e t = ground (arith, is_allocated-false m now x k l)

pub grant-Inv :
    {h : Handler} (mac : Text) (now : ℕ) (x : Ip)
    → Inv h
    → IsFree h now h.start_ip x
    → Inv (grant h mac now x)
unfolding grant
grant-Inv {h} mac now x i f = record {
  start_v4 = i.start_v4;
  end_v4 = i.end_v4;
  next_v4 = increment_ip-IsV4 f.v4;
  end_below = i.end_below;
  start_le_next =
      omega (arith, f.low, increment_ip-value f.v4 (omega (arith, f.high, i.end_below)));
  next_le = omega (arith, f.high, increment_ip-value f.v4 (omega (arith, f.high, i.end_below)));
  leased_v4 = λ k l e. elim (insert_cases mac k _ l h.leases e) [
    | inl (_, p) ↦ rw (← ap (λ (r : Lease). r.ip) p) f.v4
    | inr (_, p) ↦ i.leased_v4 k l p
  ];
  leased_in = λ k l e. elim (insert_cases mac k _ l h.leases e) [
    | inl (_, p) ↦ rw (← ap (λ (r : Lease). r.ip) p) (f.low, f.high)
    | inr (_, p) ↦ i.leased_in k l p
  ];
}

pub release-Inv : {h : Handler} (mac : Text) → Inv h → Inv (release h mac)
unfolding release
release-Inv {h} mac i = record {
  start_v4 = i.start_v4;
  end_v4 = i.end_v4;
  next_v4 = i.next_v4;
  end_below = i.end_below;
  start_le_next = i.start_le_next;
  next_le = i.next_le;
  leased_v4 = λ k l e. i.leased_v4 k l (delete_cases mac k l h.leases e).1;
  leased_in = λ k l e. i.leased_in k l (delete_cases mac k l h.leases e).1;
}

-- A configuration whose range is IPv4, in its 4-byte or its 16-byte form, in order, and ends before
-- 255.255.255.255.
pub record IsRange (cfg : DhcpConfig) : Type 0 where
  pub start_v4 : IsV4 (to4 cfg.range_start)
  pub end_v4 : IsV4 (to4 cfg.range_end)
  pub ordered : value (to4 cfg.range_start) ≤ value (to4 cfg.range_end)
  pub end_below : value (to4 cfg.range_end) < top

pub new_server-Inv : (cfg : DhcpConfig) → IsRange cfg → Inv (new_server cfg)
unfolding new_server lookup
new_server-Inv cfg r = record {
  start_v4 = r.start_v4;
  end_v4 = r.end_v4;
  next_v4 = r.start_v4;
  end_below = r.end_below;
  start_le_next = omega arith;
  next_le = omega (arith, r.ordered);
  leased_v4 = λ k l e. cc;
  leased_in = λ k l e. cc;
}
