-- ===== src/Dhcp/Tests.antt =====
-- Runs of the DHCP handler on small pools, and each theorem at an input.
use goosed.Support.{
  ℕ, ◌⊎◌, inl, inr, Bool-cases, ◌≤◌, ◌<◌, ◌≡◌, ◌≢◌, refl, Option, none, some, List, [], ◌∷◌, arith,
}
use goosed.Support.Text.{Text, lit, text_eq, text_eq_instance}
use goosed.Support.Strconv.{pos}
use goosed.Support.Maps.{lookup, insert, delete}
use goosed.Dhcp.Ip.{Ip, nil, addr, to4, equal, clone_ip, increment_ip, compare_ip}
use goosed.Dhcp.Ip.Value.{IsV4, four}
use goosed.Dhcp.Handler.{
  Handler, DhcpConfig, Lease, new_server, is_allocated, scan_up, scan_all, grant, assign, release,
}
use goosed.Dhcp.Server.{Request, Reply, request, ack, release_lease, handle, respond}
use goosed.Dhcp.Invariant.{Inv, IsRange, new_server-Inv}
use goosed.Dhcp.Safety.{
  NoConflict, Run-IsSafe, new_server-IsSafe, Run, here, handled, waited, Run-NoConflict,
}
use goosed.Dhcp.Totality.{assign_total, Gives, pool_serves}
use goosed.Dhcp.Exhaustion.{IsSpent, Run-denied}
use goosed.Dhcp.Bump.{bump, assign-bump}
use goosed.Dhcp.Replies.{IsHonest, handle-IsHonest}
use goosed.Dhcp.Renewal.{Renews, renewal_unrecorded}

abbrev ip : ℕ → Ip
ip d = addr (10 ∷ 0 ∷ 0 ∷ d ∷ [])

ip-IsV4 : (d : ℕ) → d < 256 → IsV4 (ip d)
ip-IsV4 d h = four (omega arith) (omega arith) (omega arith) h

-- A pool of two addresses.
abbrev cfg : DhcpConfig
cfg = record {
  range_start = ip 1;
  range_end = ip 2;
  subnet_mask = addr (255 ∷ 255 ∷ 255 ∷ 0 ∷ []);
  router = ip 254;
  dns_servers = [];
  lease_time = pos 100;
  server_ip = ip 254;
  next_server = nil;
  boot_filename = lit "undionly.kpxe";
}

abbrev show_ip : Ip → Text
show_ip x = lit "address"

abbrev no_reply : Request → Option (Unit {0})
no_reply req = none

abbrev empty_reply : Request → Option (Unit {0})
empty_reply req = some tt

cfg-IsRange : IsRange cfg
unfolding to4
cfg-IsRange = record {
  start_v4 = ip-IsV4 1 (omega arith);
  end_v4 = ip-IsV4 2 (omega arith);
  ordered = omega arith;
  end_below = omega arith;
}

abbrev server : List (Text × Lease) → Ip → Handler
server leases next = record {
  cfg = cfg;
  leases = leases;
  next_ip = next;
  start_ip = ip 1;
  end_ip = ip 2;
  lease_time = pos 100;
}

abbrev lease_of : Text → Ip → ℕ → Text × Lease
lease_of mac x t = (mac, record { ip = x; expires_at = t })

-- Both addresses are leased.
abbrev two_clients : Handler
two_clients = server (lease_of (lit "aa") (ip 1) 100 ∷ lease_of (lit "bb") (ip 2) 105 ∷ []) (ip 3)

abbrev ask : Text → Request
ask mac = record { message_type = request; client_hw_addr = mac }

program : Unit {0}
unfolding new_server lookup insert delete is_allocated scan_up scan_all grant assign release handle
    respond to4 equal clone_ip increment_ip compare_ip
program = tt

new_server_value : new_server cfg ≡ server [] (ip 1)
unfolding program
new_server_value = refl

start-Inv : Inv (server [] (ip 1))
unfolding program
start-Inv = new_server-Inv cfg cfg-IsRange

first_request :
    handle show_ip no_reply 9 (server [] (ip 1)) 0 (ask (lit "aa"))
    ≡ some (none, server (lease_of (lit "aa") (ip 1) 100 ∷ []) (ip 2))
unfolding program
first_request = refl

start_Run : Run show_ip no_reply (new_server cfg) 0 (server [] (ip 1)) 7
unfolding program
start_Run = waited here (omega arith)

two_clients-Run : Run show_ip no_reply (new_server cfg) 0 two_clients 5
unfolding program
two_clients-Run =
    handled (waited (handled here 9 (ask (lit "aa")) none refl) (omega arith)) 9 (ask (lit "bb"))
      none refl

Run-NoConflict_example : NoConflict two_clients 5
Run-NoConflict_example = Run-NoConflict show_ip no_reply cfg-IsRange two_clients-Run

assign_total_example : assign show_ip 4 (server [] (ip 1)) (lit "aa") 0 ≢ none
assign_total_example =
    assign_total show_ip 4 (server [] (ip 1)) (lit "aa") 0 start-Inv (omega arith)

two_clients-Inv : Inv two_clients
two_clients-Inv =
    (Run-IsSafe show_ip no_reply (new_server-IsSafe show_ip no_reply cfg 0 cfg-IsRange)
      two_clients-Run).inv

-- The pool after its last address was given out; then one client releases its lease, and the other
-- lease runs out.
two_clients-IsSpent : IsSpent two_clients
two_clients-IsSpent = record { inv = two_clients-Inv; past = omega arith }

abbrev leave : Text → Request
leave mac = record { message_type = release_lease; client_hw_addr = mac }

abbrev released : Handler
released = server (lease_of (lit "aa") (ip 1) 100 ∷ []) (ip 3)

released-Run : Run show_ip no_reply two_clients 5 released 101
unfolding program
released-Run = waited (handled here 9 (leave (lit "bb")) none refl) (omega arith)

two_clients_gone :
    (k : Text) (l : Lease)
    → lookup k two_clients.leases ≡ some l
    → (l.expires_at ≤ 101) ⊎ (lookup k released.leases ≡ none)
unfolding lookup
two_clients_gone k l e = elim (Bool-cases (text_eq (lit "aa") k)) [
  | inl y ↦ inl (ground arith)
  | inr n ↦ inr (ground arith)
]

Run-denied_example : assign show_ip 9 released (lit "cc") 101 ≡ some (nil, released)
Run-denied_example =
    Run-denied show_ip no_reply two_clients-IsSpent released-Run two_clients_gone 8 (lit "cc")

one_client_value :
    assign show_ip 3 (server [] (ip 1)) (lit "bb") 7
    ≡ some (ip 1, server (lease_of (lit "bb") (ip 1) 107 ∷ []) (ip 2))
unfolding program
one_client_value = refl

pool_serves_example : Gives (server [] (ip 1)) (assign show_ip 3 (server [] (ip 1)) (lit "bb") 7)
pool_serves_example = pool_serves show_ip no_reply cfg-IsRange start_Run (omega arith) 2 (lit "bb")

bump_value : bump two_clients (lit "cc") 5 ≡ (nil, two_clients)
unfolding program bump
bump_value = refl

assign-bump_example :
    assign show_ip 9 two_clients (lit "cc") 5 ≡ some (bump two_clients (lit "cc") 5)
assign-bump_example = assign-bump show_ip no_reply cfg-IsRange two_clients-Run 8 (lit "cc")

abbrev reply_to_aa : Reply (Unit {0})
reply_to_aa = record {
  base = tt;
  message_type = ack;
  your_ip_addr = ip 1;
  server_ip_addr = ip 254;
  boot_file_name = lit "undionly.kpxe";
  server_identifier = ip 254;
  subnet_mask = addr (255 ∷ 255 ∷ 255 ∷ 0 ∷ []);
  router = ip 254;
  dns = none;
  ip_address_lease_time = pos 100;
  tftp_server_name = none;
}

abbrev one_client : Handler
one_client = server (lease_of (lit "aa") (ip 1) 100 ∷ []) (ip 2)

first_ack :
    handle show_ip empty_reply 9 (server [] (ip 1)) 0 (ask (lit "aa"))
    ≡ some (some reply_to_aa, one_client)
unfolding program
first_ack = refl

handle-IsHonest_example : IsHonest (server [] (ip 1)) one_client 0 (ask (lit "aa")) reply_to_aa
handle-IsHonest_example =
    handle-IsHonest show_ip empty_reply 9 (server [] (ip 1)) 0 (ask (lit "aa")) start-Inv
      (omega arith) first_ack

abbrev lease_of_aa : Lease
lease_of_aa = record { ip = ip 1; expires_at = 100 }

found_aa : lookup (lit "aa") one_client.leases ≡ some lease_of_aa
unfolding program
found_aa = refl

one_client-Run : Run show_ip empty_reply (new_server cfg) 0 one_client 0
unfolding program
one_client-Run = handled here 9 (ask (lit "aa")) (some reply_to_aa) refl

-- The client asks again at 60.
second_ack :
    handle show_ip empty_reply 9 one_client 60 (ask (lit "aa"))
    ≡ some (some reply_to_aa, one_client)
unfolding program
second_ack = refl

sixty : ◌≤◌ 0 60
sixty = omega arith

ninety_nine : ◌≤◌ 60 99
ninety_nine = omega arith

abbrev asked_again : Run show_ip empty_reply one_client 0 one_client 99
asked_again =
    waited (handled (waited here sixty) 9 (ask (lit "aa")) (some reply_to_aa) second_ack)
      ninety_nine

renewal_unrecorded_example :
    (lookup (lit "aa") one_client.leases ≡ some lease_of_aa)
    × (handle show_ip empty_reply 9 one_client 99 (ask (lit "aa"))
        ≡ some (some reply_to_aa, one_client))
    × Renews one_client lease_of_aa (some reply_to_aa)
renewal_unrecorded_example =
    renewal_unrecorded show_ip empty_reply lease_of_aa (ask (lit "aa")) cfg-IsRange one_client-Run
      found_aa asked_again ((tt, λ e. absurd (cc))) (omega arith) refl 9
