-- ===== src/Api/Boot.antt =====
-- services/api/handlers_boot.go, handlers_tokens.go and fetchMachineByMAC and fetchMachineByID of
-- handlers_machines.go. A handler ends in a status or in what its page is rendered from. Parsing
-- a uuid and rendering a template are parameters; what time.Now and uuid return during a request
-- is an argument; a profile is what the JSON holds, of any type.
use goosed.Support.{ℕ, Bool, Option, none, some, ◌++◌, ◌==◌, if◌then◌else◌}
use goosed.Support.Text.{Text, lit, text_eq, to_lower, trim_space}
use goosed.Support.Results.{Result, ok, err, Method, return, fail, ◌>>=◌, ◌>>◌}
use goosed.Gorm.Table.{DbError, record_not_found, failure, Table}
use goosed.Gorm.Transaction.{Transactions}
use goosed.Tokens.Store.{
  TokenModel, Token, TokenError, token_not_found, token_expired, Store, is_empty, issue, active,
  mark_used, rotate,
}

-- machineModel, without its two times
pub record MachineModel (Profile : Type 0) : Type 0 where
  pub id : ℕ
  pub mac : Text
  pub serial : Text
  pub profile : Profile

-- The part of the configuration that the handlers read, with the lifetime of a token.
pub record Config : Type 0 where
  pub api_base : Text
  pub token_ttl : ℕ

-- A request for a page: its query parameters, "" where missing, whether it came over TLS, and its
-- host.
pub record PageRequest : Type 0 where
  pub mac : Text
  pub machine_id : Text
  pub tls : Bool
  pub host : Text

-- tokenRefreshRequest
pub record TokenRefreshRequest : Type 0 where
  pub machine_id : Text
  pub old_token : Text

-- What uuid and time.Now return to the token store during one request: the new id and token, the
-- times of Active, and those of Issue or Rotate.
pub record Ambient : Type 0 where
  pub id : ℕ
  pub value : Text
  pub active_purge : ℕ
  pub active_now : ℕ
  pub purge : ℕ
  pub now : ℕ

-- The data of a template.
pub data Payload (Profile : Type 0) : Type 0 where
  ipxe_data : (token mac api_base : Text) → Payload Profile
  install_data : (machine : MachineModel Profile) (token api_base : Text) → Payload Profile

pub data Response : Type 0 where
  error_status : ℕ → Response
  page : (content_type body : Text) → Response
  refreshed : (token : Text) (expires_at : ℕ) → Response

abbrev pub bad_request : ℕ
bad_request = 400

abbrev pub unauthorized : ℕ
unauthorized = 401

abbrev pub not_found : ℕ
not_found = 404

abbrev pub internal : ℕ
internal = 500

-- strings.ToLower(strings.TrimSpace(…))
unfoldable pub requested_mac : Text → Text
unfolding trim_space to_lower
requested_mac raw = to_lower (trim_space raw)

abbrev pub scheme : Bool → Text
scheme tls = if tls then lit "https" else lit "http"

-- apiBase
abbrev pub api_base_of : Config → PageRequest → Text
api_base_of config req =
    if is_empty config.api_base then scheme req.tls ++ lit "://" ++ req.host else config.api_base

-- The statuses of an error of the token store: of any in the boot handlers, of Rotate.
abbrev pub any_status : TokenError → ℕ
any_status e = internal

abbrev pub rotate_status : TokenError → ℕ
rotate_status token_not_found = unauthorized
rotate_status token_expired = unauthorized
rotate_status _ = internal

abbrev pub machine_status : DbError → ℕ
machine_status record_not_found = not_found
machine_status (failure n) = internal

abbrev pub with_status : {E A : Type 0} → (E → ℕ) → Result E A → Result ℕ A
with_status status (ok a) = ok a
with_status status (err e) = err (status e)

module _ (Profile : Type 0) (machines : Table (MachineModel Profile))
    (tokens : Table TokenModel) where
  pub record Api : Type 0 where
    pub machine_db : machines.State
    pub token_db : tokens.State

  abbrev pub Handling : Type 0 → Type 0
  Handling A = Method Api ℕ A

  abbrev pub with_tokens : {A : Type 0} → (TokenError → ℕ) → Store tokens A → Handling A
  with_tokens status m api =
      let (r, s) = m api.token_db in (with_status status r, record api { token_db = s })

  abbrev pub fetch_machine : (MachineModel Profile → Bool) → Handling (MachineModel Profile)
  fetch_machine p api =
      let (r, s) = machines.first p (λ m. none) api.machine_db in
      (with_status machine_status r, record api { machine_db = s })

  -- fetchMachineByMAC, with the statuses that its caller gives its errors
  unfoldable pub fetch_machine_by_mac : Text → Handling (MachineModel Profile)
  fetch_machine_by_mac mac = fetch_machine (λ m. text_eq m.mac mac)

  -- fetchMachineByID, likewise
  unfoldable pub fetch_machine_by_id : ℕ → Handling (MachineModel Profile)
  fetch_machine_by_id id = fetch_machine (λ m. m.id == id)

  abbrev pub or_issue : Config → Ambient → Text → Option Token → Handling Token
  or_issue config env mac (some token) = return token
  or_issue config env mac none =
      with_tokens any_status (issue tokens config.token_ttl mac env.id env.value env.purge env.now)

  abbrev pub take_token : Config → Ambient → Text → Handling Token
  take_token config env mac = do
    found ← with_tokens any_status (active tokens mac env.active_purge env.active_now)
    or_issue config env mac found

  abbrev pub ipxe_for :
      Config → PageRequest → Ambient → MachineModel Profile → Handling (Payload Profile)
  ipxe_for config req env machine = do
    token ← take_token config env machine.mac
    with_tokens any_status (mark_used tokens token.value)
    return (ipxe_data token.value machine.mac (api_base_of config req))

  -- handleIPXE, up to the call of Render
  unfoldable pub ipxe_payload : Config → PageRequest → Ambient → Handling (Payload Profile)
  unfolding fetch_machine_by_mac
  ipxe_payload config req env =
      if is_empty (requested_mac req.mac)
      then fail bad_request
      else (fetch_machine_by_mac (requested_mac req.mac) >>= ipxe_for config req env)

  abbrev pub install_for :
      Config → PageRequest → Ambient → MachineModel Profile → Handling (Payload Profile)
  install_for config req env machine = do
    token ←
        with_tokens any_status
          (issue tokens config.token_ttl machine.mac env.id env.value env.purge env.now)
    return (install_data machine token.value (api_base_of config req))

  abbrev pub issue_for : Config → PageRequest → Ambient → Option ℕ → Handling (Payload Profile)
  issue_for config req env none = fail bad_request
  issue_for config req env (some id) = fetch_machine_by_id id >>= install_for config req env

  module _ (parse_uuid : Text → Option ℕ) (render : Text → Payload Profile → Option Text) where
    abbrev pub written : Text → Option Text → Response
    written content_type none = error_status internal
    written content_type (some body) = page content_type body

    -- The end of a handler: Render, and the error responses.
    abbrev pub respond_page : Text → Text → Result ℕ (Payload Profile) × Api → Response × Api
    respond_page template content_type (ok payload, api) =
        (written content_type (render template payload), api)
    respond_page template content_type (err status, api) = (error_status status, api)

    -- handleKickstart and handleUnattend, up to the call of Render
    unfoldable pub install_payload : Config → PageRequest → Ambient → Handling (Payload Profile)
    unfolding fetch_machine_by_id
    install_payload config req env =
        issue_for config req env (parse_uuid (trim_space req.machine_id))

    -- handleIPXE
    unfoldable pub handle_ipxe : Config → PageRequest → Ambient → Api → Response × Api
    unfolding ipxe_payload
    handle_ipxe config req env api =
        respond_page (lit "ipxe.tmpl") (lit "text/plain") (ipxe_payload config req env api)

    -- handleKickstart
    unfoldable pub handle_kickstart : Config → PageRequest → Ambient → Api → Response × Api
    unfolding install_payload
    handle_kickstart config req env api =
        respond_page (lit "kickstart.tmpl") (lit "text/plain") (install_payload config req env api)

    -- handleUnattend
    unfoldable pub handle_unattend : Config → PageRequest → Ambient → Api → Response × Api
    unfolding install_payload
    handle_unattend config req env api =
        respond_page (lit "unattend.xml.tmpl") (lit "application/xml")
          (install_payload config req env api)

    abbrev pub respond_token : Result ℕ Token × Api → Response × Api
    respond_token (ok token, api) = (refreshed token.value token.expires_at, api)
    respond_token (err status, api) = (error_status status, api)

    module _ (tx : Transactions tokens) where
      abbrev pub refresh : Config → Text → Ambient → Option ℕ → Handling Token
      refresh config old env none = fail bad_request
      refresh config old env (some id) =
          if is_empty old
          then fail bad_request
          else fetch_machine_by_id id >>= λ machine.
              with_tokens rotate_status (
                rotate tokens tx config.token_ttl machine.mac old env.id env.value env.purge
                  env.now)

      abbrev pub refresh_token : Config → Option TokenRefreshRequest → Ambient → Handling Token
      refresh_token config none env = fail bad_request
      refresh_token config (some req) env =
          refresh config (trim_space req.old_token) env (parse_uuid (trim_space req.machine_id))

      -- handleAgentTokenRefresh, of a request that may fail to decode
      unfoldable pub handle_agent_token_refresh :
          Config → Option TokenRefreshRequest → Ambient → Api → Response × Api
      unfolding fetch_machine_by_id
      handle_agent_token_refresh config req env api =
          respond_token (refresh_token config req env api)
