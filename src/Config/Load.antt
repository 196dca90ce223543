-- ===== src/Config/Load.antt =====
-- services/pxe-stack/internal/config/types.go and config.go: Load. The host is the environment and
-- its network interfaces; net.ParseIP and IP.String are parameters.
use goosed.Support.{
  ℕ, zero, suc, ◌-◌, ◌*◌, ◌%◌, ◌^◌, Bool, true, false, not, ◌&&◌, ◌||◌, Option, none, some, List,
  [], ◌∷◌, map, ltb, if◌then◌else◌, any, keep, Ordering,
}
use goosed.Support.Text.{Text, lit, trim_space, split, equal_fold}
use goosed.Support.Results.{Result, ok, err}
use goosed.Dhcp.Ip.{Ip, nil, addr, to4, equal, compare_ip}
use goosed.Support.Strconv.{ℤ, pos, negsuc, atoi}
use goosed.Config.Env.{is_unset, get_env, get_env_bool, get_env_int, PortError, parse_port_list}

-- A network interface: its addresses, none where Addrs fails.
pub record Interface : Type 0 where
  pub name : Text
  pub addrs : Option (List Ip)

pub record Host : Type 0 where
  pub getenv : Text → Text
  -- net.InterfaceByName finds it
  pub has_interface : Text → Bool
  -- net.Interfaces, none where it fails
  pub interfaces : Option (List Interface)

-- DHCPConfig
pub record DhcpSection : Type 0 where
  pub enabled : Bool
  pub interface : Text
  pub range_start : Ip
  pub range_end : Ip
  pub subnet_mask : Ip
  pub router : Ip
  pub dns_servers : List Ip
  pub lease_time : ℤ
  pub server_ip : Ip
  pub next_server : Ip
  pub boot_filename : Text

-- TFTPConfig
pub record TftpSection : Type 0 where
  pub enabled : Bool
  pub address : Text
  pub root_dir : Text
  pub read_only : Bool
  pub timeout_sec : ℤ

-- HTTPConfig
pub record HttpSection : Type 0 where
  pub enabled : Bool
  pub port : ℤ
  pub fallback_ports : List ℕ
  pub api_endpoint : Text
  pub branding_fs : Text

pub record PxeConfig : Type 0 where
  pub dhcp : DhcpSection
  pub tftp : TftpSection
  pub http : HttpSection

pub data LoadError : Type 0 where
  invalid : (key value : Text) → LoadError
  range_required range_not_ipv4 range_reversed server_ip_required server_ip_not_ipv4 : LoadError
  auto_requires_server_ip no_interfaces no_interface_with_address no_candidate_present : LoadError
  invalid_ports : PortError → LoadError

abbrev pub Loading : Type 0 → Type 0
Loading A = Result LoadError A

abbrev pub check : {A B : Type 0} → Loading A → (A → Loading B) → Loading B
check (ok a) f = f a
check (err e) f = err e

abbrev pub is_nil : Ip → Bool
is_nil nil = true
is_nil (addr b) = false

abbrev pub non_nil : Text → Text → Ip → Loading Ip
non_nil key v nil = err (invalid key v)
non_nil key v (addr b) = ok (addr b)

-- An int64 from the exact result of a multiplication.
abbrev wrap64 : ℕ → ℤ
wrap64 n = let r = n % 2 ^ 64 in if ltb r (2 ^ 63) then pos r else negsuc (2 ^ 64 - 1 - r)

abbrev lease_of : Text → Option ℤ → Loading ℤ
lease_of v none = err (invalid (lit "PXE_DHCP_LEASE_SECONDS") v)
lease_of v (some (negsuc n)) = err (invalid (lit "PXE_DHCP_LEASE_SECONDS") v)
lease_of v (some (pos zero)) = err (invalid (lit "PXE_DHCP_LEASE_SECONDS") v)
lease_of v (some (pos (suc n))) = ok (wrap64 (suc n * 1000000000))

-- PXE_DHCP_LEASE_SECONDS, as nanoseconds
unfoldable pub parse_lease : Text → Loading ℤ
unfolding atoi
parse_lease v = if is_unset v then ok (pos 86400000000000) else lease_of v (atoi v)

-- IP.DefaultMask, of what To4 returned
abbrev class_mask : Ip → Ip
class_mask nil = nil
class_mask (addr []) = nil
class_mask (addr (a ∷ _)) =
    if ltb a 0x80
    then addr (255 ∷ 0 ∷ 0 ∷ 0 ∷ [])
    else if ltb a 0xC0
    then addr (255 ∷ 255 ∷ 0 ∷ 0 ∷ [])
    else addr (255 ∷ 255 ∷ 255 ∷ 0 ∷ [])

abbrev or_ip : Ip → Ip → Ip
or_ip nil def = def
or_ip (addr b) def = addr b

abbrev pub is_greater : Ordering → Bool
is_greater c = elim c [ Ordering.gt ↦ true | _ ↦ false ]

abbrev has_address : Ip → Option (List Ip) → Bool
has_address ip none = false
has_address ip (some addrs) = any (λ c. not (is_nil (to4 c)) && equal c ip) addrs

abbrev find_interface : Ip → List Interface → Loading Text
find_interface ip [] = err no_interface_with_address
find_interface ip (i ∷ is') = if has_address ip i.addrs then ok i.name else find_interface ip is'

abbrev interface_among : Ip → Option (List Interface) → Loading Text
interface_among ip none = err no_interfaces
interface_among ip (some list) = find_interface ip list

abbrev not_present : Option (List Interface) → Loading Text
not_present none = err no_interfaces
not_present (some list) = err no_candidate_present

abbrev first_present : Host → List Text → Loading Text
first_present host [] = not_present host.interfaces
first_present host (name ∷ names) =
    if host.has_interface name then ok name else first_present host names

-- The candidates of a list with commas.
abbrev pub candidates : Text → List Text
candidates spec = keep (λ c. not (is_unset c)) (map trim_space (split 44 spec))

abbrev no_names : List Text → Bool
no_names [] = true
no_names (n ∷ ns) = false

-- interfaceByIP
unfoldable pub interface_by_ip : Host → Ip → Loading Text
unfolding to4 equal any
interface_by_ip host nil = err no_interface_with_address
interface_by_ip host (addr b) = interface_among (addr b) host.interfaces

-- resolveDHCPInterface
unfoldable pub resolve_dhcp_interface : Host → Text → Ip → Loading Text
unfolding interface_by_ip keep split trim_space equal_fold any
resolve_dhcp_interface host spec server =
    let names = candidates spec in
    if no_names names || any (λ n. equal_fold n (lit "auto")) names
    then (if is_nil server then err auto_requires_server_ip else interface_by_ip host server)
    else first_present host (keep (λ n. not (equal_fold n (lit "auto"))) names)

-- The checks of a DHCP section that is enabled, with bytesCompare, which is the code of compareIP.
unfoldable pub validate : (Ip → Text) → DhcpSection → Loading DhcpSection
unfolding to4 compare_ip
validate ip_string d =
    if not d.enabled
    then ok d
    else if is_nil d.range_start || is_nil d.range_end
    then err range_required
    else if is_nil (to4 d.range_start) || is_nil (to4 d.range_end)
    then err range_not_ipv4
    else if is_greater (compare_ip ip_string (to4 d.range_start) (to4 d.range_end))
    then err range_reversed
    else if is_nil d.server_ip
    then err server_ip_required
    else if is_nil (to4 d.server_ip)
    then err server_ip_not_ipv4
    else ok (record d {
      subnet_mask = or_ip d.subnet_mask (class_mask (to4 d.range_start));
      router = or_ip d.router d.server_ip;
    })

abbrev as_ports : Result PortError (List ℕ) → Loading (List ℕ)
as_ports (ok ports) = ok ports
as_ports (err e) = err (invalid_ports e)

-- PXE_HTTP_FALLBACK_PORTS
abbrev pub fallback : Text → Loading (List ℕ)
fallback v = if is_unset v then ok [] else as_ports (parse_port_list v)

unfoldable pub tftp_section : Host → TftpSection
unfolding get_env_bool get_env_int
tftp_section host = record {
  enabled = get_env_bool (host.getenv (lit "PXE_ENABLE_TFTP")) true;
  address = get_env (host.getenv (lit "PXE_TFTP_ADDRESS")) (lit ":69");
  root_dir = get_env (host.getenv (lit "PXE_TFTP_ROOT")) (lit "/var/lib/tftpboot");
  read_only = get_env_bool (host.getenv (lit "PXE_TFTP_READ_ONLY")) true;
  timeout_sec = get_env_int (host.getenv (lit "PXE_TFTP_TIMEOUT")) (pos 5);
}

unfoldable pub http_section : Host → List ℕ → HttpSection
unfolding get_env_bool get_env_int
http_section host ports = record {
  enabled = get_env_bool (host.getenv (lit "PXE_ENABLE_HTTP")) true;
  port = get_env_int (host.getenv (lit "PXE_HTTP_PORT")) (pos 8080);
  fallback_ports = ports;
  api_endpoint = get_env (host.getenv (lit "PXE_HTTP_API_ENDPOINT")) (lit "http://api.goose.local");
  branding_fs = host.getenv (lit "PXE_HTTP_BRANDING_FS");
}

module _ (parse_ip : Text → Ip) (ip_string : Ip → Text) (host : Host) where
  -- An address that may be left out.
  unfoldable pub optional_ip : Text → Loading Ip
  optional_ip key =
      let v = host.getenv key in if is_unset v then ok nil else non_nil key v (parse_ip v)

  abbrev pub parse_mask : Text → Loading Ip
  parse_mask key = check (optional_ip key) (λ ip. ok (to4 ip))

  abbrev parse_servers : List Text → Loading (List Ip)
  parse_servers [] = ok []
  parse_servers (s ∷ ss) =
      check (non_nil (lit "PXE_DHCP_DNS") s (parse_ip (trim_space s)))
        (λ ip. check (parse_servers ss) (λ ips. ok (ip ∷ ips)))

  abbrev pub parse_dns : Text → Loading (List Ip)
  parse_dns v = if is_unset v then ok [] else parse_servers (split 44 v)

  -- The DHCP section before it is validated.
  unfoldable pub read_dhcp : Loading DhcpSection
  unfolding get_env_bool optional_ip parse_lease resolve_dhcp_interface to4 trim_space split
  read_dhcp = check (optional_ip (lit "PXE_DHCP_RANGE_START")) (λ range_start.
      check (optional_ip (lit "PXE_DHCP_RANGE_END")) (λ range_end.
        check (parse_mask (lit "PXE_DHCP_SUBNET_MASK")) (λ mask.
          check (optional_ip (lit "PXE_DHCP_ROUTER")) (λ router.
            check (parse_dns (host.getenv (lit "PXE_DHCP_DNS"))) (λ dns.
              check (parse_lease (host.getenv (lit "PXE_DHCP_LEASE_SECONDS"))) (λ lease.
                check (optional_ip (lit "PXE_DHCP_SERVER_IP")) (λ server.
                  check (optional_ip (lit "PXE_DHCP_NEXT_SERVER")) (λ next.
                    check
                      (resolve_dhcp_interface host
                        (get_env (host.getenv (lit "PXE_DHCP_INTERFACE")) (lit "eth0,en0")) server)
                      (λ interface. ok (record {
                        enabled = get_env_bool (host.getenv (lit "PXE_ENABLE_DHCP")) true;
                        interface = interface;
                        range_start = range_start;
                        range_end = range_end;
                        subnet_mask = mask;
                        router = router;
                        dns_servers = dns;
                        lease_time = lease;
                        server_ip = server;
                        next_server = next;
                        boot_filename =
                            get_env (host.getenv (lit "PXE_DHCP_BOOT_FILE")) (lit "undionly.kpxe");
                      }))))))))))

  -- Load
  unfoldable pub load : Loading PxeConfig
  unfolding read_dhcp validate parse_port_list tftp_section http_section
  load = check read_dhcp (λ read. check (validate ip_string read) (λ dhcp.
      check (fallback (host.getenv (lit "PXE_HTTP_FALLBACK_PORTS"))) (λ ports.
        ok (record { dhcp = dhcp; tftp = tftp_section host; http = http_section host ports }))))
