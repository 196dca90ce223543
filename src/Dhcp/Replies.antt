-- ===== src/Dhcp/Replies.antt =====
-- What the server answers: server.go, `handle` and `respond`.
use goosed.Support.{ℕ, ◌≤◌, ◌<◌, ◌≡◌, ◌≢◌, refl, Option, none, some, arith}
use goosed.Support.Strconv.{ℤ, pos, negsuc}
use goosed.Support.Text.{Text, text_eq_instance}
use goosed.Support.Maps.{lookup, lookup-insert_self}
use goosed.Dhcp.Ip.{Ip, nil, addr}
use goosed.Dhcp.Ip.Value.{IsV4, value}
use goosed.Dhcp.Handler.{Handler, Lease, time_add, grant}
use goosed.Dhcp.Server.{
  Request, Reply, MessageType, discover, offer, request, ack, handle, respond, answer, dispatch,
  fill,
}
use goosed.Dhcp.Invariant.{Inv, AssignResult, Outcome, kept, fresh, denied, assign-Outcome}

-- The handler holds a lease of `ip` for the client that is in force after `now`.
pub record IsLeased (h : Handler) (mac : Text) (now : ℕ) (ip : Ip) : Type 0 where
  pub lease : Lease
  pub found : lookup mac h.leases ≡ some lease
  pub same : lease.ip ≡ ip
  pub live : now < lease.expires_at

-- Which messages are answered, and by what.
abbrev pub answer_type : MessageType → Option MessageType
answer_type discover = some offer
answer_type request = some ack
answer_type _ = none

-- What a reply promises: an address of the range that is leased to the client, for the time and
-- with the boot file of the configuration.
pub record IsHonest {Base : Type 0} (h h' : Handler) (now : ℕ) (req : Request) (reply : Reply Base)
    : Type 0 where
  pub kind : answer_type req.message_type ≡ some reply.message_type
  pub leased : IsLeased h' req.client_hw_addr now reply.your_ip_addr
  pub v4 : IsV4 reply.your_ip_addr
  pub low : value h.start_ip ≤ value reply.your_ip_addr
  pub high : value reply.your_ip_addr ≤ value h.end_ip
  pub lease_time : reply.ip_address_lease_time ≡ h.lease_time
  pub boot_file : reply.boot_file_name ≡ h.cfg.boot_filename

-- A duration above zero.
abbrev pub IsPositive : ℤ → Type 0
IsPositive (pos d) = 0 < d
IsPositive (negsuc d) = d < 0

time_add-positive : (now : ℕ) (d : ℤ) → IsPositive d → now < time_add now d
time_add-positive now (pos d) p = omega arith
time_add-positive now (negsuc d) p = omega arith

record IsGiven (h h' : Handler) (mac : Text) (now : ℕ) (ip : Ip) : Type 0 where
  leased : IsLeased h' mac now ip
  v4 : IsV4 ip
  low : value h.start_ip ≤ value ip
  high : value ip ≤ value h.end_ip
  lease_time : h'.lease_time ≡ h.lease_time
  boot_file : h'.cfg.boot_filename ≡ h.cfg.boot_filename

Outcome-IsGiven :
    {h : Handler} {mac : Text} {now : ℕ} {ip : Ip} {h' : Handler}
    → Inv h
    → IsPositive h.lease_time
    → Outcome h mac now ip h'
    → ip ≢ nil
    → IsGiven h h' mac now ip
unfolding grant
Outcome-IsGiven {mac = mac} i p (kept l e t) n = record {
  leased = record { lease = l; found = e; same = refl; live = t };
  v4 = i.leased_v4 mac l e;
  low = (i.leased_in mac l e).0;
  high = (i.leased_in mac l e).1;
  lease_time = refl;
  boot_file = refl;
}
Outcome-IsGiven i p (denied nl f) n = absurd (n refl)
Outcome-IsGiven {h} {mac} {now} i p (fresh x nl f) n = record {
  leased = record {
    lease = record { ip = x; expires_at = time_add now h.lease_time };
    found = lookup-insert_self mac _ h.leases;
    same = refl;
    live = time_add-positive now h.lease_time p;
  };
  v4 = f.v4;
  low = f.low;
  high = f.high;
  lease_time = refl;
  boot_file = refl;
}

module _ {Base : Type 0} (ip_string : Ip → Text) (new_reply : Request → Option Base) where
  abbrev Honest : Handler → ℕ → Request → Option (Option (Reply Base) × Handler) → Type 0
  Honest h now req none = Unit {0}
  Honest h now req (some (none, h')) = Unit {0}
  Honest h now req (some (some r, h')) = IsHonest h h' now req r

  fill-Honest :
      {h : Handler} (h' : Handler) (now : ℕ) (req : Request) (t : MessageType) (ip : Ip)
      → answer_type req.message_type ≡ some t
      → IsGiven h h' req.client_hw_addr now ip
      → (base : Option Base) → Honest h now req (some (fill ip_string new_reply h' t ip base, h'))
  fill-Honest h' now req t ip k g none = tt
  fill-Honest h' now req t ip k g (some base) = record {
    kind = k;
    leased = g.leased;
    v4 = g.v4;
    low = g.low;
    high = g.high;
    lease_time = g.lease_time;
    boot_file = g.boot_file;
  }

  answer-Honest :
      {h : Handler} (now : ℕ) (req : Request) (t : MessageType)
      → answer_type req.message_type ≡ some t
      → Inv h
      → IsPositive h.lease_time
      → (r : Option (Ip × Handler)) → AssignResult h req.client_hw_addr now r
      → Honest h now req (answer ip_string new_reply req t r)
  answer-Honest now req t k i p none o = tt
  answer-Honest now req t k i p (some (nil, h')) o = tt
  answer-Honest now req t k i p (some (addr b, h')) o =
      fill-Honest h' now req t (addr b) k (Outcome-IsGiven i p o (λ e. cc)) (new_reply req)

  dispatch-Honest :
      (m : MessageType) (fuel : ℕ) (h : Handler) (now : ℕ) (req : Request)
      → req.message_type ≡ m
      → Inv h
      → IsPositive h.lease_time
      → Honest h now req (dispatch ip_string new_reply m fuel h now req)
  unfolding respond
  dispatch-Honest discover fuel h now req e i p =
      answer-Honest now req offer (rw e) i p _
        (assign-Outcome ip_string fuel h req.client_hw_addr now i)
  dispatch-Honest request fuel h now req e i p =
      answer-Honest now req ack (rw e) i p _
        (assign-Outcome ip_string fuel h req.client_hw_addr now i)
  dispatch-Honest _ fuel h now req e i p = tt

  -- In a state that keeps the invariant of the handler, and with a lease time above zero: what is
  -- sent answers a discover by an offer and a request by an ack, and nothing else; its
  -- address is one of the range that the handler then holds for the client, by a lease in force,
  -- and its lease time and boot file are those of the handler.
  pub handle-IsHonest :
      (fuel : ℕ) (h : Handler) (now : ℕ) (req : Request) {reply : Reply Base} {h' : Handler}
      → Inv h
      → IsPositive h.lease_time
      → handle ip_string new_reply fuel h now req ≡ some (some reply, h')
      → IsHonest h h' now req reply
  unfolding handle
  handle-IsHonest fuel h now req i p e =
      rw e at (dispatch-Honest req.message_type fuel h now req refl i p)
