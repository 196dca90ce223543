-- ===== src/Dhcp/Totality.antt =====
-- `assign` returns, and gives an address while the range lasts: server.go, `assign`.
use goosed.Support.{
  ℕ, ◌+◌, ◌≤◌, ◌<◌, ◌≡◌, ◌≢◌, refl, Option, none, some, inl, inr, Bool-cases, arith, ltb, leb, suc,
  true,
}
use goosed.Support.Text.{Text, text_eq_instance}
use goosed.Support.Maps.{lookup}
use goosed.Dhcp.Ip.{Ip}
use goosed.Dhcp.Ip.Value.{IsV4, value, clone_ip-eq_self}
use goosed.Dhcp.Handler.{
  Handler, DhcpConfig, Lease, new_server, Scan, exhausted, free, wrapped, scan_up, scan_all, assign,
  finish?, after_first, search_free, with_lease,
}
use goosed.Dhcp.Scan.{scan_up_total, scan_all_total}
use goosed.Dhcp.Invariant.{Inv, IsRange}
use goosed.Dhcp.Server.{Request}
use goosed.Dhcp.Safety.{Run, Run-IsSafe, new_server-IsSafe}
use goosed.Dhcp.Bump.{bump, bump_next, bump_lease, assign-bump}

module _ (s : Ip → Text) (fuel : ℕ) (h : Handler) (mac : Text) (now : ℕ) (i : Inv h) where
  first_total :
      (r : Option Scan)
      → r ≢ none
      → scan_all s fuel h now h.start_ip ≢ none
      → after_first s fuel h mac now r ≢ none
  first_total none n m = absurd (n refl)
  first_total (some exhausted) n m = λ e. cc
  first_total (some (free x)) n m = λ e. cc
  first_total (some wrapped) n m =
      rw (clone_ip-eq_self h.start_ip) (second (scan_all s fuel h now h.start_ip) m)
    where
      second : (r : Option Scan) → r ≢ none → finish? s h mac now r ≢ none
      second none m = absurd (m refl)
      second (some r) m = λ e. cc

  search_total : value h.end_ip + 1 < value h.start_ip + fuel → search_free s fuel h mac now ≢ none
  search_total f = rw (clone_ip-eq_self h.next_ip) (
      first_total (scan_up s fuel h now h.next_ip)
        (scan_up_total s h now i.end_v4 i.end_below fuel h.next_ip i.next_v4 i.next_le
          (omega (arith, i.start_le_next)))
        (scan_all_total s h now i.end_v4 i.end_below fuel h.start_ip i.start_v4
          (omega (arith, i.start_le_next, i.next_le)) f))

  leased_total :
      (o : Option Lease)
      → value h.end_ip + 1 < value h.start_ip + fuel
      → with_lease s fuel h mac now o ≢ none
  leased_total none f = search_total f
  leased_total (some l) f = elim (Bool-cases (ltb now l.expires_at)) [
    | inl y ↦ rw y (λ e. cc)
    | inr n ↦ rw n (search_total f)
  ]

  -- From a state that keeps the invariant of the handler `assign` returns, with a round of fuel for
  -- each address of the range and two more.
  pub assign_total : value h.end_ip + 1 < value h.start_ip + fuel → assign s fuel h mac now ≢ none
  unfolding assign
  assign_total f = leased_total (lookup mac h.leases) f

-- `assign` returns an address of the range of the handler.
abbrev pub Gives : Handler → Option (Ip × Handler) → Type 0
Gives h none = ⊥
Gives h (some (ip, h')) = IsV4 ip × (value h.start_ip ≤ value ip) × (value ip ≤ value h.end_ip)

bump_next-Gives :
    (h : Handler) (mac : Text) (now : ℕ)
    → Inv h
    → value h.next_ip ≤ value h.end_ip
    → Gives h (some (bump_next h mac now))
bump_next-Gives h mac now i n =
    let y : leb (value h.next_ip) (value h.end_ip) ≡ true = ground arith in
    rw y (i.next_v4, i.start_le_next, n)

bump-Gives :
    (h : Handler) (mac : Text) (now : ℕ)
    → Inv h
    → value h.next_ip ≤ value h.end_ip
    → (o : Option Lease) → lookup mac h.leases ≡ o
    → Gives h (some (bump_lease h mac now o))
bump-Gives h mac now i n none e = bump_next-Gives h mac now i n
bump-Gives h mac now i n (some l) e = elim (Bool-cases (ltb now l.expires_at)) [
  | inl y ↦ rw y (let (a, b) = i.leased_in mac l e in (i.leased_v4 mac l e, a, b))
  | inr m ↦ rw m (bump_next-Gives h mac now i n)
]

-- In every state that a server reaches whose range is IPv4, in order and ends before
-- 255.255.255.255, and whose next address is not past the end of the range, `assign` with fuel for
-- one round returns, and what it gives every client is an address of the range, never nil.
pub pool_serves :
    {Base : Type 0} (ip_string : Ip → Text) (new_reply : Request → Option Base) {cfg : DhcpConfig}
    {t₀ : ℕ} {h : Handler} {now : ℕ}
    → IsRange cfg
    → Run ip_string new_reply (new_server cfg) t₀ h now
    → value h.next_ip ≤ value h.end_ip
    → (fuel : ℕ) (mac : Text) → Gives h (assign ip_string (suc fuel) h mac now)
unfolding bump
pool_serves ip_string new_reply {cfg} {t₀} {h} {now} r p n fuel mac =
    let i =
      (Run-IsSafe ip_string new_reply (new_server-IsSafe ip_string new_reply cfg t₀ r) p).inv in
    rw (assign-bump ip_string new_reply r p fuel mac) (bump-Gives h mac now i n _ refl)
