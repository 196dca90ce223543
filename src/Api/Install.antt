-- ===== src/Api/Install.antt =====
-- services/api/handlers_boot.go, handleKickstart and handleUnattend.
use goosed.Support.{ℕ, ◌+◌, ◌≡◌, refl, ap, Option, none, some, ◌==◌, arith, ◌∙◌}
use goosed.Support.Text.{Text, lit, trim_space}
use goosed.Support.Results.{Result, ok, and_then, and_then-ok, ok-injective}
use goosed.Gorm.Table.{Table, Member}
use goosed.Tokens.Store.{TokenModel, Token, issue, normalize, new_token}
use goosed.Tokens.Lookup.{issue_lem}
use goosed.Gorm.Rows.{Member-append_last}
use goosed.Api.Boot.{
  MachineModel, Config, PageRequest, Ambient, Payload, install_data, page, any_status, api_base_of,
  Api, with_tokens, fetch_machine, fetch_machine_by_id, install_for, issue_for, install_payload,
  handle_kickstart, handle_unattend,
}
use goosed.Api.Served.{Fetched, fetch_machine-Fetched, with_tokens-ok}
use goosed.Api.Pages.{served_page}

module _ (Profile : Type 0) (machines : Table (MachineModel Profile)) (tokens : Table TokenModel)
    (parse_uuid : Text → Option ℕ) (render : Text → Payload Profile → Option Text) where
  -- A page of an installation was rendered for a machine of the table, with a new token.
  pub record InstallPage (template : Text) (config : Config) (req : PageRequest) (env : Ambient)
      (body : Text) (before after : Api Profile machines tokens) : Type 0 where
    pub id : ℕ
    pub parsed : parse_uuid (trim_space req.machine_id) ≡ some id
    pub machine : MachineModel Profile
    pub fetched : Fetched Profile machines tokens (λ m. m.id == id) machine before
    pub token : Token
    pub issued :
        issue tokens config.token_ttl machine.mac env.id env.value env.purge env.now before.token_db
        ≡ (ok token, after.token_db)
    pub rendered :
        render template (install_data machine token.value (api_base_of config req)) ≡ some body

  issued_page :
      (template : Text) (config : Config) (req : PageRequest) (env : Ambient) (body : Text) (id : ℕ)
      (api : Api Profile machines tokens) {payload : Payload Profile}
      {api' : Api Profile machines tokens}
      → parse_uuid (trim_space req.machine_id) ≡ some id
      → and_then
          (fetch_machine Profile machines tokens (λ m. m.id == id) api)
          (install_for Profile machines tokens config req env)
        ≡ (ok payload, api')
      → render template payload ≡ some body
      → InstallPage template config req env body api api'
  issued_page template config req env body id api {payload} {api'} p e r =
      let asked = fetch_machine Profile machines tokens (λ m. m.id == id) api in
      let (machine, f, e1) = and_then-ok asked _ e in
      let issuing = issue tokens config.token_ttl machine.mac env.id env.value env.purge env.now in
      let made = with_tokens Profile machines tokens any_status issuing asked.1 in
      let (t, g, e2) = and_then-ok made _ e1 in
      let i = with_tokens-ok Profile machines tokens any_status issuing asked.1 g in
      let same : ◌≡◌ {A = Result ℕ (Payload Profile) × Api Profile machines tokens}
          (ok (install_data machine t.value (api_base_of config req)), made.1) (ok payload, api') =
        e2 in
      record {
        id = id;
        parsed = p;
        machine = machine;
        fetched = fetch_machine-Fetched Profile machines tokens (λ m. m.id == id) api f;
        token = t;
        issued = i ∙ ap (λ z. (ok t, z.1.token_db)) same;
        rendered = ap (render template) (ok-injective (ap (λ z. z.0) same)) ∙ r;
      }

  parsed_page :
      (template : Text) (config : Config) (req : PageRequest) (env : Ambient) (body : Text)
      (o : Option ℕ) (api : Api Profile machines tokens) {payload : Payload Profile}
      {api' : Api Profile machines tokens}
      → parse_uuid (trim_space req.machine_id) ≡ o
      → issue_for Profile machines tokens config req env o api ≡ (ok payload, api')
      → render template payload ≡ some body
      → InstallPage template config req env body api api'
  unfolding fetch_machine_by_id
  parsed_page template config req env body none api p e r = absurd (cc)
  parsed_page template config req env body (some id) api p e r =
      issued_page template config req env body id api p e r

  handle_kickstart-InstallPage :
      (config : Config) (req : PageRequest) (env : Ambient) (api : Api Profile machines tokens)
      {ct body : Text} {api' : Api Profile machines tokens}
      → handle_kickstart Profile machines tokens parse_uuid render config req env api
        ≡ (page ct body, api')
      → InstallPage (lit "kickstart.tmpl") config req env body api api'
  unfolding handle_kickstart install_payload
  handle_kickstart-InstallPage config req env api {ct} {body} h =
      let (p, e, r) =
        served_page Profile machines tokens parse_uuid render (lit "kickstart.tmpl")
          (lit "text/plain") ct body
          (install_payload Profile machines tokens parse_uuid render config req env api) h in
      parsed_page (lit "kickstart.tmpl") config req env body _ api refl e r

  handle_unattend-InstallPage :
      (config : Config) (req : PageRequest) (env : Ambient) (api : Api Profile machines tokens)
      {ct body : Text} {api' : Api Profile machines tokens}
      → handle_unattend Profile machines tokens parse_uuid render config req env api
        ≡ (page ct body, api')
      → InstallPage (lit "unattend.xml.tmpl") config req env body api api'
  unfolding handle_unattend install_payload
  handle_unattend-InstallPage config req env api {ct} {body} h =
      let (p, e, r) =
        served_page Profile machines tokens parse_uuid render (lit "unattend.xml.tmpl")
          (lit "application/xml") ct body
          (install_payload Profile machines tokens parse_uuid render config req env api) h in
      parsed_page (lit "unattend.xml.tmpl") config req env body _ api refl e r

  -- What a page of an installation says of the machine and of the tokens.
  abbrev pub Installs :
      Text
      → Config
      → PageRequest
      → Ambient
      → Text
      → Api Profile machines tokens
      → Api Profile machines tokens
      → Type 0
  Installs template config req env body api api' =
      (machine : MachineModel Profile) × (parse_uuid (trim_space req.machine_id) ≡ some machine.id)
      × Member machine (machines.rows api.machine_db)
      × (render template (install_data machine env.value (api_base_of config req)) ≡ some body)
      × Member (new_token (normalize machine.mac) env.id env.value (env.now + config.token_ttl))
          (tokens.rows api'.token_db)

  InstallPage-Installs :
      (template : Text) (config : Config) (req : PageRequest) (env : Ambient) (body : Text)
      (api api' : Api Profile machines tokens)
      → InstallPage template config req env body api api'
      → Installs template config req env body api api'
  InstallPage-Installs template config req env body api api' i =
      let (_, t, rows) =
        issue_lem tokens config.token_ttl i.machine.mac env.id env.value env.purge env.now
          api.token_db i.issued in
      let asked = i.fetched.asked in
      let model =
        new_token (normalize i.machine.mac) env.id env.value (env.now + config.token_ttl) in
      (
        i.machine,
        i.parsed ∙ ap some (ground arith),
        i.fetched.stored,
        rw t at i.rendered,
        rw rows (Member-append_last _ model),
      )

  -- A page of handleKickstart is rendered from kickstart.tmpl, for a machine of the table with the id
  -- of the request and the value drawn for a new token; the token's row, unused, of the machine's
  -- address in small letters and lasting for the lifetime of a token, is in the table.
  pub handle_kickstart-Installs :
      (config : Config) (req : PageRequest) (env : Ambient) (api : Api Profile machines tokens)
      {ct body : Text} {api' : Api Profile machines tokens}
      → handle_kickstart Profile machines tokens parse_uuid render config req env api
        ≡ (page ct body, api')
      → Installs (lit "kickstart.tmpl") config req env body api api'
  handle_kickstart-Installs config req env api {body = body} {api' = api'} h =
      InstallPage-Installs (lit "kickstart.tmpl") config req env body api api'
        (handle_kickstart-InstallPage config req env api h)

  -- A page of handleUnattend is rendered from unattend.xml.tmpl, for a machine of the table with the
  -- id of the request and the value drawn for a new token; the token's row, unused, of the machine's
  -- address in small letters and lasting for the lifetime of a token, is in the table.
  handle_unattend-Installs :
      (config : Config) (req : PageRequest) (env : Ambient) (api : Api Profile machines tokens)
      {ct body : Text} {api' : Api Profile machines tokens}
      → handle_unattend Profile machines tokens parse_uuid render config req env api
        ≡ (page ct body, api')
      → Installs (lit "unattend.xml.tmpl") config req env body api api'
  handle_unattend-Installs config req env api {body = body} {api' = api'} h =
      InstallPage-Installs (lit "unattend.xml.tmpl") config req env body api api'
        (handle_unattend-InstallPage config req env api h)
