-- ===== src/Api/Tests.antt =====
-- Requests to the boot handlers over tables in memory, and each theorem at an input.
mod Machines
use goosed.Support.{
  ℕ, ◌≡◌, ◌≢◌, refl, false, Option, none, some, List, [], ◌∷◌, inl, inr, arith, keep, sym, ap, ◌∙◌,
}
use goosed.Support.Text.{Text, lit, text_eq, to_lower, trim_space, trim_left, trim_right, is_space}
use goosed.Gorm.Table.{updated, Member}
use goosed.Gorm.InMemory.{in_memory, best}
use goosed.Gorm.Transaction.{in_memory_transactions}
use goosed.Tokens.Store.{
  TokenModel, normalize, use_up, new_token, issue, active, mark_used, rotate, replace,
  purge_expired, invalidate,
}
use goosed.Tokens.Once.{TokensUnique}
use goosed.Api.Boot.{
  MachineModel, Config, PageRequest, TokenRefreshRequest, Ambient, Payload, ipxe_data, install_data,
  page, error_status, refreshed, requested_mac, Api, fetch_machine_by_mac, fetch_machine_by_id,
  ipxe_payload, install_payload, handle_ipxe, handle_kickstart, handle_unattend,
  handle_agent_token_refresh,
}
use goosed.Api.Pages.{IpxePage, handle_ipxe-IpxePage, pages_differ}
use goosed.Api.Refresh.{refreshed_once, handle_refresh_err}
use goosed.Api.Install.{Installs, handle_kickstart-Installs}

program : Unit {0}
unfolding issue active mark_used rotate replace purge_expired normalize to_lower trim_space
    trim_left trim_right is_space text_eq best updated keep requested_mac fetch_machine_by_mac
    fetch_machine_by_id ipxe_payload install_payload handle_ipxe handle_kickstart handle_unattend
    handle_agent_token_refresh
program = tt

abbrev Machine : Type 0
Machine = MachineModel Text

abbrev State : Type 0
State = Api Text in_memory in_memory

abbrev mac : Text
mac = lit "aa:01"

abbrev machine : Machine
machine = record { id = 55; mac = mac; serial = lit "s"; profile = lit "rhel" }

abbrev state : List TokenModel → State
state rows = record { machine_db = machine ∷ []; token_db = rows }

-- An id of one letter.
abbrev parse_uuid : Text → Option ℕ
parse_uuid [] = none
parse_uuid (c ∷ s) = some c

-- A page that is its token.
abbrev render : Text → Payload Text → Option Text
render template (ipxe_data token m base) = some token
render template (install_data m token base) = some token

abbrev config : Config
config = record { api_base = lit ""; token_ttl = 100 }

abbrev request : PageRequest
request = record { mac = lit " AA:01"; machine_id = lit "7"; tls = false; host = lit "h" }

abbrev env : ℕ → Text → ℕ → Ambient
env id value t = record {
  id = id;
  value = value;
  active_purge = t;
  active_now = t;
  purge = t;
  now = t;
}

abbrev first : TokenModel
first = new_token mac 1 (lit "t1") 110

abbrev second : TokenModel
second = new_token mac 2 (lit "t2") 120

boots :
    handle_ipxe Text in_memory in_memory parse_uuid render config request
      (env 1 (lit "t1") 10)
      (state [])
    ≡ (page (lit "text/plain") (lit "t1"), state (use_up first ∷ []))
unfolding program
boots = refl

boots_again :
    handle_ipxe Text in_memory in_memory parse_uuid render config request
      (env 2 (lit "t2") 20)
      (state (use_up first ∷ []))
    ≡ (page (lit "text/plain") (lit "t2"), state (use_up first ∷ use_up second ∷ []))
unfolding program
boots_again = refl

misses :
    handle_ipxe Text in_memory in_memory parse_uuid render config
      (record request { mac = lit "bb" })
      (env 1 (lit "t1") 10)
      (state [])
    ≡ (error_status 404, state [])
unfolding program
misses = refl

kickstarts :
    handle_kickstart Text in_memory in_memory parse_uuid render config request
      (env 1 (lit "t1") 10)
      (state [])
    ≡ (page (lit "text/plain") (lit "t1"), state (first ∷ []))
unfolding program
kickstarts = refl

attends :
    handle_unattend Text in_memory in_memory parse_uuid render config request
      (env 1 (lit "t1") 10)
      (state [])
    ≡ (page (lit "application/xml") (lit "t1"), state (first ∷ []))
unfolding program
attends = refl

abbrev refresh_request : TokenRefreshRequest
refresh_request = record { machine_id = lit "7"; old_token = lit "t1" }

refreshes :
    handle_agent_token_refresh Text in_memory in_memory parse_uuid render in_memory_transactions
      config
      (some refresh_request)
      (env 2 (lit "t2") 20)
      (state (first ∷ []))
    ≡ (refreshed (lit "t2") 120, state (invalidate 20 first ∷ second ∷ []))
unfolding program
refreshes = refl

refuses :
    handle_agent_token_refresh Text in_memory in_memory parse_uuid render in_memory_transactions
      config
      (some refresh_request)
      (env 3 (lit "t3") 20)
      (state (second ∷ []))
    ≡ (error_status 401, state (second ∷ []))
unfolding program
refuses = refl

fresh : (r : TokenModel) → Member r (use_up first ∷ []) → r.token ≢ lit "t2"
fresh r (inl e) q =
    let p : lit "t1" ≡ lit "t2" = ap (λ (z : TokenModel). z.token) e ∙ q in absurd (ground arith)
fresh r (inr x) q = elim x [ ]

fresh' : (r : TokenModel) → Member r (first ∷ []) → r.token ≢ lit "t2"
fresh' r (inl e) q =
    let p : lit "t1" ≡ lit "t2" = ap (λ (z : TokenModel). z.token) e ∙ q in absurd (ground arith)
fresh' r (inr x) q = elim x [ ]

unique : TokensUnique (first ∷ [])
unique a b (inl p) (inr x) t = elim x [ ]
unique a b (inr x) _ t = elim x [ ]
unique a b (inl p) (inl q) t = ap (λ (z : TokenModel). z.id) (sym p ∙ q)

handle_ipxe-IpxePage_example :
    IpxePage Text in_memory in_memory parse_uuid render config request
      (env 1 (lit "t1") 10)
      (lit "t1")
      (state [])
      (state (use_up first ∷ []))
handle_ipxe-IpxePage_example =
    handle_ipxe-IpxePage Text in_memory in_memory parse_uuid render config request
      (env 1 (lit "t1") 10) (state []) boots

pages_differ_example :
    (t t' m m' : Text) × (render (lit "ipxe.tmpl") (ipxe_data t m (lit "http://h"))
      ≡ some (lit "t1"))
    × (render (lit "ipxe.tmpl") (ipxe_data t' m' (lit "http://h")) ≡ some (lit "t2"))
    × (t' ≢ trim_space t)
pages_differ_example =
    pages_differ Text in_memory in_memory parse_uuid render config request request
      (env 1 (lit "t1") 10) (env 2 (lit "t2") 20) (state []) boots fresh boots_again

handle_kickstart-Installs_example :
    Installs Text in_memory in_memory parse_uuid render
      (lit "kickstart.tmpl")
      config
      request
      (env 1 (lit "t1") 10)
      (lit "t1")
      (state [])
      (state (first ∷ []))
handle_kickstart-Installs_example =
    handle_kickstart-Installs Text in_memory in_memory parse_uuid render config request
      (env 1 (lit "t1") 10) (state []) kickstarts

refreshed_once_example :
    handle_agent_token_refresh Text in_memory in_memory parse_uuid render in_memory_transactions
      config
      (some refresh_request)
      (env 3 (lit "t3") 30)
      (state (invalidate 20 first ∷ second ∷ []))
    ≢ (refreshed (lit "t3") 130, state [])
refreshed_once_example =
    refreshed_once Text in_memory in_memory parse_uuid render in_memory_transactions config
      refresh_request refresh_request (env 2 (lit "t2") 20) (env 3 (lit "t3") 30)
      (state (first ∷ [])) unique fresh' (omega arith) refl refreshes

handle_refresh_err_example : (second ∷ [] ≡ second ∷ []) × (machine ∷ [] ≡ machine ∷ [])
handle_refresh_err_example =
    handle_refresh_err Text in_memory in_memory parse_uuid render in_memory_transactions config
      (some refresh_request) (env 3 (lit "t3") 20) (state (second ∷ [])) refuses
