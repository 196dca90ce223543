-- ===== src/Dhcp/Server.antt =====
-- services/pxe-stack/internal/dhcp/server.go: the messages of the server. What the dhcpv4 library
-- makes of a request, `new_reply`, and IP.String are parameters; sending and logging are left out.
use goosed.Support.{ℕ, Option, none, some, List, [], ◌∷◌}
use goosed.Support.Text.{Text}
use goosed.Support.Strconv.{ℤ}
use goosed.Dhcp.Ip.{Ip, nil, addr}
use goosed.Dhcp.Handler.{Handler, assign, release}

-- dhcpv4.MessageType, as far as `handle` tells them apart
pub data MessageType : Type 0 where
  discover offer request ack release_lease other : MessageType

-- The fields of dhcpv4.DHCPv4 that the handler reads of a request.
pub record Request : Type 0 where
  pub message_type : MessageType
  pub client_hw_addr : Text

-- The reply, with what the library puts into it as `base`.
pub record Reply (Base : Type 0) : Type 0 where
  pub base : Base
  pub message_type : MessageType
  pub your_ip_addr : Ip
  pub server_ip_addr : Ip
  pub boot_file_name : Text
  pub server_identifier : Ip
  pub subnet_mask : Ip
  pub router : Ip
  pub dns : Option (List Ip)
  pub ip_address_lease_time : ℤ
  pub tftp_server_name : Option Text

abbrev dns_option : List Ip → Option (List Ip)
dns_option [] = none
dns_option (d ∷ ds) = some (d ∷ ds)

module _ {Base : Type 0} (ip_string : Ip → Text) (new_reply : Request → Option Base) where
  abbrev server_address : Ip → Ip → Ip
  server_address server nil = server
  server_address server (addr b) = addr b

  abbrev tftp_name : Ip → Option Text
  tftp_name nil = none
  tftp_name (addr b) = some (ip_string (addr b))

  abbrev pub fill : Handler → MessageType → Ip → Option Base → Option (Reply Base)
  fill h t ip none = none
  fill h t ip (some base) = some (record {
    base = base;
    message_type = t;
    your_ip_addr = ip;
    server_ip_addr = server_address h.cfg.server_ip h.cfg.next_server;
    boot_file_name = h.cfg.boot_filename;
    server_identifier = h.cfg.server_ip;
    subnet_mask = h.cfg.subnet_mask;
    router = h.cfg.router;
    dns = dns_option h.cfg.dns_servers;
    ip_address_lease_time = h.lease_time;
    tftp_server_name = tftp_name h.cfg.next_server;
  })

  -- what is sent once `assign` has returned
  abbrev pub reply_for : Request → MessageType → Ip → Handler → Option (Reply Base)
  reply_for req t nil h = none
  reply_for req t (addr b) h = fill h t (addr b) (new_reply req)

  abbrev pub answer :
      Request → MessageType → Option (Ip × Handler) → Option (Option (Reply Base) × Handler)
  answer req t none = none
  answer req t (some (ip, h')) = some (reply_for req t ip h', h')

  -- respond
  unfoldable pub respond :
      ℕ → Handler → ℕ → Request → MessageType → Option (Option (Reply Base) × Handler)
  respond fuel h now req t = answer req t (assign ip_string fuel h req.client_hw_addr now)

  abbrev pub dispatch :
      MessageType → ℕ → Handler → ℕ → Request → Option (Option (Reply Base) × Handler)
  dispatch discover fuel h now req = respond fuel h now req offer
  dispatch request fuel h now req = respond fuel h now req ack
  dispatch release_lease fuel h now req = some (none, release h req.client_hw_addr)
  dispatch _ fuel h now req = some (none, h)

  -- handle
  unfoldable pub handle : ℕ → Handler → ℕ → Request → Option (Option (Reply Base) × Handler)
  unfolding respond
  handle fuel h now req = dispatch req.message_type fuel h now req
