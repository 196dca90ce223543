-- ===== src/Dhcp/Handler.antt =====
-- services/pxe-stack/internal/dhcp/types.go and server.go: the state of the handler and what it
-- does with a message. A call holds the mutex and takes place at one instant, `now`.
-- The two loops of `assign` take fuel; `none` says that it ran out.
use goosed.Support.{
  ℕ, zero, suc, ◌+◌, ◌-◌, Bool, true, false, not, ◌&&◌, Option, none, some, List, [], ltb, Ordering,
  if◌then◌else◌, any,
}
use goosed.Support.Text.{Text, text_eq_instance}
use goosed.Support.Strconv.{ℤ, pos, negsuc}
use goosed.Support.Maps.{Map, lookup, insert, delete}
use goosed.Dhcp.Ip.{Ip, nil, to4, equal, clone_ip, increment_ip, compare_ip}

-- lease
pub record Lease : Type 0 where
  pub ip : Ip
  pub expires_at : ℕ

-- The fields of config.DHCPConfig that the handler reads.
pub record DhcpConfig : Type 0 where
  pub range_start : Ip
  pub range_end : Ip
  pub subnet_mask : Ip
  pub router : Ip
  pub dns_servers : List Ip
  pub lease_time : ℤ
  pub server_ip : Ip
  pub next_server : Ip
  pub boot_filename : Text

-- handler, without the logger and the mutex
pub record Handler : Type 0 where
  pub cfg : DhcpConfig
  pub leases : Map Text Lease
  pub next_ip : Ip
  pub start_ip : Ip
  pub end_ip : Ip
  pub lease_time : ℤ

-- NewServer
unfoldable pub new_server : DhcpConfig → Handler
unfolding to4
new_server cfg = record {
  cfg = cfg;
  leases = [];
  start_ip = to4 cfg.range_start;
  end_ip = to4 cfg.range_end;
  next_ip = to4 cfg.range_start;
  lease_time = cfg.lease_time;
}

-- Time.Add. A duration may be negative; a time before the origin of the times is the origin, which
-- no time is before either.
abbrev pub time_add : ℕ → ℤ → ℕ
time_add t (pos d) = t + d
time_add t (negsuc d) = t - (d + 1)

-- Time.After
abbrev pub is_after : ℕ → ℕ → Bool
is_after t u = ltb u t

-- isAllocated
unfoldable pub is_allocated : Map Text Lease → ℕ → Ip → Bool
unfolding any
is_allocated leases now ip = any (λ e. is_after e.1.expires_at now && equal ip e.1.ip) leases

abbrev pub is_greater : Ordering → Bool
is_greater c = elim c [ Ordering.gt ↦ true | _ ↦ false ]

abbrev pub is_equal : Ordering → Bool
is_equal c = elim c [ Ordering.eq ↦ true | _ ↦ false ]

-- How a loop of `assign` ends: `return nil`, `return ip`, or `break`.
pub data Scan : Type 0 where
  exhausted : Scan
  free : Ip → Scan
  wrapped : Scan

-- The lease that an address is given by, and the place where the next search begins.
unfoldable pub grant : Handler → Text → ℕ → Ip → Handler
grant h mac now ip = record h {
  leases = insert mac (record { ip = ip; expires_at = time_add now h.lease_time }) h.leases;
  next_ip = increment_ip ip;
}

module _ (ip_string : Ip → Text) where
  -- The first loop of `assign`, from the address `ip`.
  unfoldable pub scan_up : ℕ → Handler → ℕ → Ip → Option Scan
  scan_up zero h now ip = none
  scan_up (suc fuel) h now ip =
      let rest = scan_up fuel h now (increment_ip ip) in
      if is_greater (compare_ip ip_string ip h.end_ip)
      then some exhausted
      else if not (is_allocated h.leases now ip)
      then some (free ip)
      else if is_equal (compare_ip ip_string ip h.end_ip)
      then some wrapped
      else rest

  -- The second loop of `assign`; its end is the final `return nil`.
  unfoldable pub scan_all : ℕ → Handler → ℕ → Ip → Option Scan
  scan_all zero h now ip = none
  scan_all (suc fuel) h now ip =
      let rest = scan_all fuel h now (increment_ip ip) in
      if is_greater (compare_ip ip_string ip h.end_ip)
      then some exhausted
      else if not (is_allocated h.leases now ip)
      then some (free ip)
      else rest

  abbrev pub finish : Handler → Text → ℕ → Scan → Ip × Handler
  finish h mac now (free ip) = (ip, grant h mac now ip)
  finish h mac now exhausted = (nil, h)
  finish h mac now wrapped = (nil, h)

  abbrev pub finish? : Handler → Text → ℕ → Option Scan → Option (Ip × Handler)
  finish? h mac now none = none
  finish? h mac now (some r) = some (finish h mac now r)

  abbrev pub after_first : ℕ → Handler → Text → ℕ → Option Scan → Option (Ip × Handler)
  after_first fuel h mac now none = none
  after_first fuel h mac now (some exhausted) = some (nil, h)
  after_first fuel h mac now (some (free ip)) = some (ip, grant h mac now ip)
  after_first fuel h mac now (some wrapped) =
      finish? h mac now (scan_all fuel h now (clone_ip h.start_ip))

  abbrev pub search_free : ℕ → Handler → Text → ℕ → Option (Ip × Handler)
  search_free fuel h mac now = after_first fuel h mac now (scan_up fuel h now (clone_ip h.next_ip))

  abbrev pub with_lease : ℕ → Handler → Text → ℕ → Option Lease → Option (Ip × Handler)
  with_lease fuel h mac now none = search_free fuel h mac now
  with_lease fuel h mac now (some l) =
      if is_after l.expires_at now then some (l.ip, h) else search_free fuel h mac now

  -- assign
  unfoldable pub assign : ℕ → Handler → Text → ℕ → Option (Ip × Handler)
  unfolding clone_ip lookup
  assign fuel h mac now = with_lease fuel h mac now (lookup mac h.leases)

-- release
unfoldable pub release : Handler → Text → Handler
release h mac = record h { leases = delete mac h.leases }
