-- ===== src/Dhcp/Safety.antt =====
-- No address is leased to two clients at once, along any run of the server.
use goosed.Support.{ℕ, ◌≤◌, ◌<◌, ◌≡◌, ◌≢◌, ap, Option, none, some, inl, inr, arith}
use goosed.Support.Text.{Text, text_eq_instance}
use goosed.Support.Maps.{lookup, insert_cases, delete_cases}
use goosed.Dhcp.Ip.{Ip}
use goosed.Dhcp.Ip.Value.{value, equal-value}
use goosed.Dhcp.Handler.{Handler, DhcpConfig, Lease, new_server, grant, release}
use goosed.Dhcp.Server.{
  answer, dispatch, Request, Reply, MessageType, discover, offer, request, ack, release_lease,
  handle, respond,
}
use goosed.Dhcp.Scan.{IsFree}
use goosed.Dhcp.Invariant.{
  Inv, AssignResult, Outcome, kept, fresh, denied, assign-Outcome, is_allocated-false, grant-Inv,
  release-Inv, IsRange, new_server-Inv,
}

-- Leases that are in force after `now` for one address belong to one client.
abbrev pub NoConflict : Handler → ℕ → Type 0
NoConflict h now =
    (j k : Text) (a b : Lease)
    → lookup j h.leases ≡ some a
    → lookup k h.leases ≡ some b
    → now < a.expires_at
    → now < b.expires_at
    → a.ip ≡ b.ip
    → j ≡ k

pub record IsSafe (h : Handler) (now : ℕ) : Type 0 where
  pub inv : Inv h
  pub no_conflict : NoConflict h now

free_ne :
    {h : Handler} {now : ℕ} {x : Ip} (k : Text) (l : Lease)
    → Inv h
    → IsFree h now h.start_ip x
    → lookup k h.leases ≡ some l
    → now < l.expires_at
    → x ≢ l.ip
free_ne {h} {now} {x} k l i f e t p =
    let d = is_allocated-false h.leases now x k l f.unleased e t in
    let q = equal-value f.v4 (i.leased_v4 k l e) in ground (arith, d, q, ap value p)

grant-NoConflict :
    {h : Handler} (mac : Text) (now : ℕ) (x : Ip)
    → IsSafe h now
    → IsFree h now h.start_ip x
    → NoConflict (grant h mac now x) now
unfolding grant
grant-NoConflict {h} mac now x s f j k a b ea eb ta tb p =
    elim (insert_cases mac j _ a h.leases ea) [
      | inl (mj, pa) ↦ elim (insert_cases mac k _ b h.leases eb) [
        | inl (mk, pb) ↦ cc
        | inr (mk, pb) ↦ absurd (free_ne k b s.inv f pb tb (cc (p, ap (λ (r : Lease). r.ip) pa)))
      ]
      | inr (mj, pa) ↦ elim (insert_cases mac k _ b h.leases eb) [
        | inl (mk, pb) ↦ absurd (free_ne j a s.inv f pa ta (cc (p, ap (λ (r : Lease). r.ip) pb)))
        | inr (mk, pb) ↦ s.no_conflict j k a b pa pb ta tb p
      ]
    ]

Outcome-IsSafe :
    {h : Handler} {mac : Text} {now : ℕ} {ip : Ip} {h' : Handler}
    → IsSafe h now
    → Outcome h mac now ip h'
    → IsSafe h' now
Outcome-IsSafe s (kept l e t) = s
Outcome-IsSafe s (denied n f) = s
Outcome-IsSafe {mac = mac} {now = now} s (fresh x n f) = record {
  inv = grant-Inv mac now x s.inv f;
  no_conflict = grant-NoConflict mac now x s f;
}

release-IsSafe : {h : Handler} {now : ℕ} (mac : Text) → IsSafe h now → IsSafe (release h mac) now
unfolding release
release-IsSafe {h} mac s = record {
  inv = unfold release in release-Inv mac s.inv;
  no_conflict = λ j k a b ea eb.
      s.no_conflict j k a b (delete_cases mac j a h.leases ea).1
        (delete_cases mac k b h.leases eb).1;
}

later-IsSafe : {h : Handler} {now t : ℕ} → now ≤ t → IsSafe h now → IsSafe h t
later-IsSafe l s = record {
  inv = s.inv;
  no_conflict = λ j k a b ea eb ta tb. s.no_conflict j k a b ea eb (omega arith) (omega arith);
}

module _ {Base : Type 0} (ip_string : Ip → Text) (new_reply : Request → Option Base) where
  -- The state that a call leaves, where it returns, has the property.
  abbrev Leaves : (Handler → Type 0) → Option (Option (Reply Base) × Handler) → Type 0
  Leaves P none = Unit {0}
  Leaves P (some (_, h')) = P h'

  respond_IsSafe :
      {h : Handler} (now : ℕ) (req : Request) (t : MessageType)
      → IsSafe h now
      → (r : Option (Ip × Handler)) → AssignResult h req.client_hw_addr now r
      → Leaves (λ h'. IsSafe h' now) (answer ip_string new_reply req t r)
  respond_IsSafe now req t s none o = tt
  respond_IsSafe now req t s (some (ip, h')) o = Outcome-IsSafe s o

  dispatch-IsSafe :
      (m : MessageType) (fuel : ℕ) (h : Handler) (now : ℕ) (req : Request)
      → IsSafe h now
      → Leaves (λ h'. IsSafe h' now) (dispatch ip_string new_reply m fuel h now req)
  unfolding respond
  dispatch-IsSafe discover fuel h now req s =
      respond_IsSafe now req offer s _
        (assign-Outcome ip_string fuel h req.client_hw_addr now s.inv)
  dispatch-IsSafe request fuel h now req s =
      respond_IsSafe now req ack s _ (assign-Outcome ip_string fuel h req.client_hw_addr now s.inv)
  dispatch-IsSafe release_lease fuel h now req s = release-IsSafe req.client_hw_addr s
  dispatch-IsSafe _ fuel h now req s = s

  handle-IsSafe :
      (fuel : ℕ) (h : Handler) (now : ℕ) (req : Request)
      → IsSafe h now
      → Leaves (λ h'. IsSafe h' now) (handle ip_string new_reply fuel h now req)
  unfolding handle
  handle-IsSafe fuel h now req s = dispatch-IsSafe req.message_type fuel h now req s

  -- The runs of a server from a state: it handles a message, or time passes.
  pub data Run (h₀ : Handler) (t₀ : ℕ) : Handler → ℕ → Type 0 where
    here : Run h₀ t₀ h₀ t₀
    handled :
        {h : Handler} {now : ℕ} {h' : Handler}
        → Run h₀ t₀ h now
        → (fuel : ℕ) (req : Request) (reply : Option (Reply Base))
        → handle ip_string new_reply fuel h now req ≡ some (reply, h')
        → Run h₀ t₀ h' now
    waited : {h : Handler} {now t : ℕ} → Run h₀ t₀ h now → now ≤ t → Run h₀ t₀ h t

  pub new_server-IsSafe : (cfg : DhcpConfig) (now : ℕ) → IsRange cfg → IsSafe (new_server cfg) now
  unfolding new_server lookup
  new_server-IsSafe cfg now r = record {
    inv = unfold new_server lookup in new_server-Inv cfg r;
    no_conflict = λ j k a b ea. cc;
  }

  pub Run-IsSafe :
      {h₀ : Handler} {t₀ : ℕ} {h : Handler} {now : ℕ}
      → IsSafe h₀ t₀
      → Run h₀ t₀ h now
      → IsSafe h now
  Run-IsSafe s here = s
  Run-IsSafe s (waited p l) = later-IsSafe l (Run-IsSafe s p)
  Run-IsSafe s (handled {h} {now} {h'} p fuel req reply e) =
      rw e at (handle-IsSafe fuel h now req (Run-IsSafe s p))

  -- In every state that a server reaches whose range is IPv4, in order and ends before
  -- 255.255.255.255, two leases in force for one address belong to one client.
  pub Run-NoConflict :
      {cfg : DhcpConfig} {t₀ : ℕ} {h : Handler} {now : ℕ}
      → IsRange cfg
      → Run (new_server cfg) t₀ h now
      → NoConflict h now
  Run-NoConflict {cfg} {t₀} r p = (Run-IsSafe (new_server-IsSafe cfg t₀ r) p).no_conflict
