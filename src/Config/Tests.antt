-- ===== src/Config/Tests.antt =====
-- A configuration that is read from a small environment, and each theorem at an input.
use goosed.Support.{
  ℕ, ◌<◌, ◌≡◌, refl, true, Option, none, some, [], ◌∷◌, arith, any, keep, if◌then◌else◌, ltb, inl,
  inr, Bool-cases, All,
}
use goosed.Support.Text.{
  Text, lit, text_eq, trim_space, trim_left, trim_right, is_space, split, equal_fold, to_lower,
  text_eq_instance, has_prefix,
}
use goosed.Support.Maps.{lookup, insert}
use goosed.Support.Results.{ok}
use goosed.Dhcp.Ip.{
  Ip, nil, addr, to4, equal, compare_ip, clone_ip, increment_ip, increment_from, compare_bytes,
}
use goosed.Dhcp.Ip.Value.{value, top}
use goosed.Dhcp.Handler.{Handler, new_server, is_allocated, scan_up, grant, assign}
use goosed.Dhcp.Server.{Request, discover, handle, respond}
use goosed.Dhcp.Safety.{here, handled, NoConflict}
use goosed.Support.Strconv.{pos, atoi, parse_bool}
use goosed.Config.Env.{get_env_bool, get_env_int, parse_port_list, collect_ports}
use goosed.Config.Ports.{IsPort, Distinct, parse_port_list_lem}
use goosed.Config.Load.{
  Host, DhcpSection, PxeConfig, load, read_dhcp, validate, optional_ip, parse_lease,
  interface_by_ip, resolve_dhcp_interface, tftp_section, http_section,
}
use goosed.Config.Range.{
  IsParsed, no_address, sixteen, IsUsable, load-IsUsable, dhcp_config, loaded-NoConflict,
}

program : Unit {0}
unfolding load read_dhcp validate optional_ip parse_lease interface_by_ip resolve_dhcp_interface
    tftp_section http_section parse_port_list collect_ports atoi parse_bool get_env_bool get_env_int
    any keep trim_space trim_left trim_right is_space split equal_fold to_lower text_eq has_prefix
    to4 equal compare_ip compare_bytes
program = tt

-- 10.0.0.c, of a string that begins with the code point c
abbrev address : ℕ → Ip
address c = addr (0 ∷ 0 ∷ 0 ∷ 0 ∷ 0 ∷ 0 ∷ 0 ∷ 0 ∷ 0 ∷ 0 ∷ 0xff ∷ 0xff ∷ 10 ∷ 0 ∷ 0 ∷ c ∷ [])

abbrev parse_ip : Text → Ip
parse_ip [] = nil
parse_ip (c ∷ s) = if ltb c 256 then address c else nil

parses : (s : Text) → IsParsed (parse_ip s)
parses [] = no_address
parses (c ∷ s) = elim (Bool-cases (ltb c 256)) [
  | inl y ↦
      let h : c < 256 = ground arith in
      let z : 0 < 256 = omega arith in
      let f : 0xff < 256 = omega arith in
      rw y (
        sixteen refl (
          z,
          (
            z,
            (z, (z, (z, (z, (z, (z, (z, (z, (f, (f, ((omega arith), (z, (z, (h, (tt))))))))))))))),
          ),
        ))
  | inr n ↦ rw n no_address
]

abbrev show_ip : Ip → Text
show_ip x = lit "address"

abbrev getenv : Text → Text
getenv key =
    if text_eq key (lit "PXE_DHCP_RANGE_START")
    then lit "1"
    else if text_eq key (lit "PXE_DHCP_RANGE_END")
    then lit "2"
    else if text_eq key (lit "PXE_DHCP_SERVER_IP")
    then lit "3"
    else if text_eq key (lit "PXE_HTTP_FALLBACK_PORTS")
    then lit "80, 81,80"
    else lit ""

abbrev host : Host
host = record {
  getenv = getenv;
  has_interface = λ name. text_eq name (lit "en0");
  interfaces = some [];
}

abbrev section : DhcpSection
section = record {
  enabled = true;
  interface = lit "en0";
  range_start = address 49;
  range_end = address 50;
  subnet_mask = addr (255 ∷ 0 ∷ 0 ∷ 0 ∷ []);
  router = address 51;
  dns_servers = [];
  lease_time = pos 86400000000000;
  server_ip = address 51;
  next_server = nil;
  boot_filename = lit "undionly.kpxe";
}

abbrev config : PxeConfig
config = record {
  dhcp = section;
  tftp = record {
    enabled = true;
    address = lit ":69";
    root_dir = lit "/var/lib/tftpboot";
    read_only = true;
    timeout_sec = pos 5;
  };
  http = record {
    enabled = true;
    port = pos 8080;
    fallback_ports = 80 ∷ 81 ∷ [];
    api_endpoint = lit "http://api.goose.local";
    branding_fs = lit "";
  };
}

loads : load parse_ip show_ip host ≡ ok config
unfolding program
loads = refl

ports : parse_port_list (lit "80, 81,80") ≡ ok (80 ∷ 81 ∷ [])
unfolding program
ports = refl

below_top : value (to4 section.range_end) < top
unfolding program
below_top = omega arith

parse_port_list_lem_example : All IsPort (80 ∷ 81 ∷ []) × Distinct (80 ∷ 81 ∷ [])
parse_port_list_lem_example = parse_port_list_lem (lit "80, 81,80") (80 ∷ 81 ∷ []) ports

load-IsUsable_example : IsUsable section
load-IsUsable_example = load-IsUsable parse_ip show_ip host parses loads refl

abbrev no_reply : Request → Option (Unit {0})
no_reply req = none

abbrev client : Request
client = record { message_type = discover; client_hw_addr = lit "aa" }

abbrev served : Handler
served = record (new_server (dhcp_config section)) {
  leases =
      (lit "aa", record { ip = addr (10 ∷ 0 ∷ 0 ∷ 49 ∷ []); expires_at = 86400000000000 }) ∷ [];
  next_ip = addr (10 ∷ 0 ∷ 0 ∷ 50 ∷ []);
}

serves : handle show_ip no_reply 3 (new_server (dhcp_config section)) 0 client ≡ some (none, served)
unfolding program handle respond assign scan_up is_allocated grant new_server lookup insert clone_ip
    increment_ip increment_from
serves = refl

loaded-NoConflict_example : NoConflict served 0
loaded-NoConflict_example =
    loaded-NoConflict parse_ip show_ip host parses no_reply loads refl below_top
      (handled here 3 client none serves)
