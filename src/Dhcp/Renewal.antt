-- ===== src/Dhcp/Renewal.antt =====
-- What becomes of a lease while its client keeps asking: server.go, `assign`, which answers from the
-- lease that it finds and does not write it again.
use goosed.Support.{ℕ, ◌<◌, ◌≡◌, ◌≢◌, refl, Option, none, some, arith, ltb, true}
use goosed.Support.Text.{Text, text_eq_instance}
use goosed.Support.Maps.{lookup, lookup-insert_ne, lookup-delete_ne}
use goosed.Dhcp.Ip.{Ip, nil, addr}
use goosed.Dhcp.Handler.{Handler, DhcpConfig, Lease, new_server, grant, assign, release}
use goosed.Dhcp.Server.{
  Request, Reply, MessageType, discover, offer, request, ack, release_lease, handle, respond,
  answer, reply_for, fill, dispatch,
}
use goosed.Dhcp.Invariant.{Inv, IsRange, AssignResult, Outcome, kept, fresh, denied, assign-Outcome}
use goosed.Dhcp.Safety.{Run, here, handled, waited, IsSafe, Run-IsSafe, new_server-IsSafe}

-- The handler holds the lease `l` of the client `mac`.
abbrev Holds : Text → Lease → Handler → Type 0
Holds mac l h = lookup mac h.leases ≡ some l

Outcome-Holds :
    {h : Handler} {mac : Text} {now : ℕ} {ip : Ip} {h' : Handler} (k : Text) (l : Lease)
    → Holds k l h
    → now < l.expires_at
    → Outcome h mac now ip h'
    → Holds k l h'
unfolding grant
Outcome-Holds k l e t (kept m f u) = e
Outcome-Holds k l e t (denied n f) = e
Outcome-Holds {h} {mac} {now} k l e t (fresh x n f) =
    let other : mac ≢ k =
      λ q. absurd (let e' : lookup mac h.leases ≡ some l = rw q e in omega (arith, n l e')) in
    rw (lookup-insert_ne mac k _ h.leases other) e

-- What is sent acknowledges the address of the lease, for the whole lease time.
abbrev pub Renews : {Base : Type 0} → Handler → Lease → Option (Reply Base) → Type 0
Renews h l none = Unit {0}
Renews h l (some r) =
    (r.your_ip_addr ≡ l.ip) × (r.message_type ≡ ack) × (r.ip_address_lease_time ≡ h.lease_time)

module _ {Base : Type 0} (ip_string : Ip → Text) (new_reply : Request → Option Base) where
  -- The client sent no release in the run.
  abbrev pub Unreleased :
      Text
      → {h₀ : Handler} {t₀ : ℕ} {h : Handler} {now : ℕ} → Run ip_string new_reply h₀ t₀ h now
      → Type 0
  Unreleased mac here = Unit {0}
  Unreleased mac (waited p l) = Unreleased mac p
  Unreleased mac (handled p fuel req reply e) =
      Unreleased mac p × (req.message_type ≡ release_lease → req.client_hw_addr ≢ mac)

  abbrev AllHold : Text → Lease → Option (Option (Reply Base) × Handler) → Type 0
  AllHold k l none = Unit {0}
  AllHold k l (some (_, h')) = Holds k l h'

  answer-Holds :
      (h : Handler) (now : ℕ) (req : Request) (t : MessageType) (k : Text) (l : Lease)
      → Holds k l h
      → now < l.expires_at
      → (r : Option (Ip × Handler)) → AssignResult h req.client_hw_addr now r
      → AllHold k l (answer ip_string new_reply req t r)
  answer-Holds h now req t k l e u none o = tt
  answer-Holds h now req t k l e u (some (ip, h')) o = Outcome-Holds k l e u o

  dispatch-Holds :
      (m : MessageType) (fuel : ℕ) (h : Handler) (now : ℕ) (req : Request) (k : Text) (l : Lease)
      → Inv h
      → Holds k l h
      → now < l.expires_at
      → (m ≡ release_lease → req.client_hw_addr ≢ k)
      → AllHold k l (dispatch ip_string new_reply m fuel h now req)
  unfolding respond release
  dispatch-Holds discover fuel h now req k l i e u n =
      answer-Holds h now req offer k l e u _
        (assign-Outcome ip_string fuel h req.client_hw_addr now i)
  dispatch-Holds request fuel h now req k l i e u n =
      answer-Holds h now req ack k l e u _
        (assign-Outcome ip_string fuel h req.client_hw_addr now i)
  dispatch-Holds release_lease fuel h now req k l i e u n =
      rw (lookup-delete_ne req.client_hw_addr k h.leases (n refl)) e
  dispatch-Holds _ fuel h now req k l i e u n = e

  handle-Holds :
      (fuel : ℕ) (h : Handler) (now : ℕ) (req : Request) (k : Text) (l : Lease)
      → Inv h
      → Holds k l h
      → now < l.expires_at
      → (req.message_type ≡ release_lease → req.client_hw_addr ≢ k)
      → AllHold k l (handle ip_string new_reply fuel h now req)
  unfolding handle
  handle-Holds fuel h now req k l i e u n =
      dispatch-Holds req.message_type fuel h now req k l i e u n

  Run-Holds :
      {h₀ : Handler} {t₀ : ℕ} {h : Handler} {now : ℕ} (mac : Text) (l : Lease)
      → IsSafe h₀ t₀
      → Holds mac l h₀
      → (p : Run ip_string new_reply h₀ t₀ h now) → Unreleased mac p
      → now < l.expires_at
      → Holds mac l h
  Run-Holds mac l s e here n u = e
  Run-Holds mac l s e (waited p q) n u = Run-Holds mac l s e p n (omega arith)
  Run-Holds mac l s e (handled {h} {now} {h'} p fuel req reply f) (n, m) u =
      let i = (Run-IsSafe ip_string new_reply s p).inv in
      rw f at (handle-Holds fuel h now req mac l i (Run-Holds mac l s e p n u) u m)

  reply-Renews :
      (h : Handler) (req : Request) (l : Lease) (ip : Ip)
      → l.ip ≡ ip
      → Renews h l (reply_for ip_string new_reply req ack ip h)
  reply-Renews h req l nil q = tt
  reply-Renews h req l (addr b) q = fill-Renews (new_reply req)
    where
      fill-Renews : (base : Option Base) → Renews h l (fill ip_string new_reply h ack (addr b) base)
      fill-Renews none = tt
      fill-Renews (some base) = (cc, refl, refl)

  request_kept :
      (fuel : ℕ) (h : Handler) (now : ℕ) (req : Request) (l : Lease)
      → req.message_type ≡ request
      → Holds req.client_hw_addr l h
      → now < l.expires_at
      → handle ip_string new_reply fuel h now req
        ≡ some (reply_for ip_string new_reply req ack l.ip h, h)
  unfolding handle respond assign
  request_kept fuel h now req l k e t =
      let y : ltb now l.expires_at ≡ true = ground arith in rw (k, e, y) refl

  -- A lease that a client holds in some state of a server, whose range is IPv4, in order and ends
  -- before 255.255.255.255, is never extended: whatever messages the server handles until it runs
  -- out, requests of the client among them but no release of it, the handler still holds that very
  -- lease. The next request is answered from it, with any fuel, and changes nothing, while its ack,
  -- where one can be built, promises the whole lease time.
  pub renewal_unrecorded :
      {cfg : DhcpConfig} {s₀ : ℕ} {h₀ : Handler} {t₀ : ℕ} {h : Handler} {now : ℕ} (l : Lease)
      (req : Request)
      → IsRange cfg
      → Run ip_string new_reply (new_server cfg) s₀ h₀ t₀
      → lookup req.client_hw_addr h₀.leases ≡ some l
      → (p : Run ip_string new_reply h₀ t₀ h now) → Unreleased req.client_hw_addr p
      → now < l.expires_at
      → req.message_type ≡ request
      → (fuel : ℕ)
      → (lookup req.client_hw_addr h.leases ≡ some l)
        × (handle ip_string new_reply fuel h now req
            ≡ some (reply_for ip_string new_reply req ack l.ip h, h))
        × Renews h l (reply_for ip_string new_reply req ack l.ip h)
  renewal_unrecorded {cfg} {s₀} {h = h} {now = now} l req r q e p n u k fuel =
      let start = new_server-IsSafe ip_string new_reply cfg s₀ r in
      let found = Run-Holds req.client_hw_addr l (Run-IsSafe ip_string new_reply start q) e p n u in
      (found, request_kept fuel h now req l k found u, reply-Renews h req l l.ip refl)
