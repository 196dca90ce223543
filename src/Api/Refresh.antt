-- ===== src/Api/Refresh.antt =====
-- services/api/handlers_tokens.go, handleAgentTokenRefresh.
use goosed.Support.{
  ℕ, ◌≤◌, ◌≡◌, ◌≢◌, refl, sym, ap, Bool, Option, none, some, ◌==◌, inl, inr, arith, Bool-cases, ◌∙◌,
}
use goosed.Support.Text.{Text, trim_space}
use goosed.Support.Results.{Result, ok, err, and_then, and_then-ok}
use goosed.Gorm.Table.{DbError, Table, Member}
use goosed.Gorm.Transaction.{Transactions}
use goosed.Tokens.Store.{TokenModel, Token, TokenError, Store, is_empty, rotate}
use goosed.Tokens.Rotation.{rotate_ok, rotate_err}
use goosed.Tokens.Once.{TokensUnique, rotated_once}
use goosed.Api.Boot.{
  MachineModel, Config, TokenRefreshRequest, Ambient, Payload, error_status, refreshed,
  rotate_status, Api, with_tokens, fetch_machine, fetch_machine_by_id, refresh, refresh_token,
  handle_agent_token_refresh, respond_token,
}
use goosed.Api.Served.{Fetched, fetch_machine-Fetched, with_tokens-ok}

module _ (Profile : Type 0) (machines : Table (MachineModel Profile)) (tokens : Table TokenModel)
    (parse_uuid : Text → Option ℕ) (render : Text → Payload Profile → Option Text)
    (tx : Transactions tokens) where
  -- Rotate, as the handler calls it.
  abbrev rotating : Config → Text → Ambient → MachineModel Profile → Store tokens Token
  rotating config old env machine =
      rotate tokens tx config.token_ttl machine.mac old env.id env.value env.purge env.now

  -- A refresh rotated the token of a machine of the table.
  pub record TokenRefreshed (config : Config) (old machine_id : Text) (env : Ambient)
      (before after : Api Profile machines tokens) (token : Token) : Type 0 where
    pub id : ℕ
    pub parsed : parse_uuid (trim_space machine_id) ≡ some id
    pub machine : MachineModel Profile
    pub fetched : Fetched Profile machines tokens (λ m. m.id == id) machine before
    pub rotated : rotating config old env machine before.token_db ≡ (ok token, after.token_db)

  rotating-TokenRefreshed :
      (config : Config) (old machine_id : Text) (env : Ambient) (id : ℕ)
      (api : Api Profile machines tokens) {token : Token} {api' : Api Profile machines tokens}
      → parse_uuid (trim_space machine_id) ≡ some id
      → and_then (fetch_machine Profile machines tokens (λ m. m.id == id) api) (λ machine.
        with_tokens Profile machines tokens rotate_status (rotating config old env machine))
        ≡ (ok token, api')
      → TokenRefreshed config old machine_id env api api' token
  rotating-TokenRefreshed config old machine_id env id api {token} {api'} p e =
      let asked = fetch_machine Profile machines tokens (λ m. m.id == id) api in
      let (machine, f, e1) = and_then-ok asked _ e in
      let r =
        with_tokens-ok Profile machines tokens rotate_status (rotating config old env machine)
          asked.1 (ap (λ z. z.0) e1) in
      record {
        id = id;
        parsed = p;
        machine = machine;
        fetched = fetch_machine-Fetched Profile machines tokens (λ m. m.id == id) api f;
        rotated = r ∙ ap (λ z. (ok token, z.1.token_db)) e1;
      }

  refresh-TokenRefreshed :
      (config : Config) (old machine_id : Text) (env : Ambient) (o : Option ℕ)
      (api : Api Profile machines tokens) {token : Token} {api' : Api Profile machines tokens}
      → parse_uuid (trim_space machine_id) ≡ o
      → refresh Profile machines tokens parse_uuid render tx config old env o api ≡ (ok token, api')
      → TokenRefreshed config old machine_id env api api' token
  unfolding fetch_machine_by_id
  refresh-TokenRefreshed config old machine_id env none api p e = absurd (cc)
  refresh-TokenRefreshed config old machine_id env (some id) api p e =
      elim (Bool-cases (is_empty old)) [
        | inl y ↦ absurd (ground arith)
        | inr n ↦ rotating-TokenRefreshed config old machine_id env id api p (rw n at e)
      ]

  token_sent :
      (r : Result ℕ Token × Api Profile machines tokens) {value : Text} {expires_at : ℕ}
      {api' : Api Profile machines tokens}
      → respond_token Profile machines tokens parse_uuid render r
        ≡ (refreshed value expires_at, api')
      → (t : Token) × (r ≡ (ok t, api'))
  token_sent (ok t, api) h = (t, ground arith)
  token_sent (err n, api) h = absurd (cc)

  handle_refresh-TokenRefreshed :
      (config : Config) (req : TokenRefreshRequest) (env : Ambient)
      (api : Api Profile machines tokens) {value : Text} {expires_at : ℕ}
      {api' : Api Profile machines tokens}
      → handle_agent_token_refresh Profile machines tokens parse_uuid render tx config
          (some req)
          env
          api
        ≡ (refreshed value expires_at, api')
      → (t : Token) × TokenRefreshed config (trim_space req.old_token) req.machine_id env api api' t
  unfolding handle_agent_token_refresh
  handle_refresh-TokenRefreshed config req env api h =
      let (t, e) =
        token_sent
          (refresh_token Profile machines tokens parse_uuid render tx config (some req) env api)
          h in
      (t, refresh-TokenRefreshed config (trim_space req.old_token) req.machine_id env _ api refl e)

  -- Where a token stands in one row and the first request draws a value that no row has, of two
  -- refreshes in a row that present one token, for any machines and the second no earlier, at most
  -- one is answered by a token.
  pub refreshed_once :
      (config : Config) (req req' : TokenRefreshRequest) (env env' : Ambient)
      (api : Api Profile machines tokens) {value value' : Text} {expires_at expires_at' : ℕ}
      {api' api'' : Api Profile machines tokens}
      → TokensUnique (tokens.rows api.token_db)
      → ((r : TokenModel) → Member r (tokens.rows api.token_db) → r.token ≢ env.value)
      → env.now ≤ env'.now
      → trim_space req'.old_token ≡ trim_space req.old_token
      → handle_agent_token_refresh Profile machines tokens parse_uuid render tx config
          (some req)
          env
          api
        ≡ (refreshed value expires_at, api')
      → handle_agent_token_refresh Profile machines tokens parse_uuid render tx config
          (some req')
          env'
          api'
        ≢ (refreshed value' expires_at', api'')
  refreshed_once config req req' env env' api unique new later same h h' =
      let (_, one) = handle_refresh-TokenRefreshed config req env api h in
      let (t, two) = handle_refresh-TokenRefreshed config req' env' _ h' in
      let old = trim_space req.old_token in
      let (done, _) =
        rotate_ok tokens tx config.token_ttl one.machine.mac old env.id env.value env.purge env.now
          api.token_db one.rotated in
      let fresh : env.value ≢ trim_space old =
        λ q. new done.current done.stored (done.presented ∙ sym q) in
      rotated_once tokens tx config.token_ttl one.machine.mac two.machine.mac old env.id env'.id
        env.value env'.value env.purge env.now env'.purge env'.now api.token_db unique fresh later
        one.rotated (rw same at two.rotated)

  with_tokens_err :
      (m : Store tokens Token) (status : TokenError → ℕ) (api : Api Profile machines tokens) {n : ℕ}
      {api' : Api Profile machines tokens}
      → ((x : TokenError) (s' : tokens.State)
          → m api.token_db ≡ (err x, s')
          → tokens.rows s' ≡ tokens.rows api.token_db)
      → with_tokens Profile machines tokens status m api ≡ (err n, api')
      → (tokens.rows api'.token_db ≡ tokens.rows api.token_db)
        × (machines.rows api'.machine_db ≡ machines.rows api.machine_db)
  with_tokens_err m status api {n} {api'} k h = go (m api.token_db) refl
    where
      go :
          (r : Result TokenError Token × tokens.State)
          → m api.token_db ≡ r
          → (tokens.rows api'.token_db ≡ tokens.rows api.token_db)
            × (machines.rows api'.machine_db ≡ machines.rows api.machine_db)
      go (ok t, s) e = absurd (ground arith)
      go (err x, s) e = let q = k x s e in (ground (arith, q), ground arith)

  refused :
      (config : Config) (old : Text) (env : Ambient) (p : MachineModel Profile → Bool)
      (api : Api Profile machines tokens) (r : Result DbError (MachineModel Profile)) {n : ℕ}
      {api' : Api Profile machines tokens}
      → (machines.first p (λ m. none) api.machine_db).0 ≡ r
      → and_then (fetch_machine Profile machines tokens p api) (λ machine.
        with_tokens Profile machines tokens rotate_status (rotating config old env machine))
        ≡ (err n, api')
      → (tokens.rows api'.token_db ≡ tokens.rows api.token_db)
        × (machines.rows api'.machine_db ≡ machines.rows api.machine_db)
  refused config old env p api (err x) f e =
      let q = machines.rows-first p (λ m. none) api.machine_db in (ground arith, ground (arith, q))
  refused config old env p api (ok machine) f e =
      let q = machines.rows-first p (λ m. none) api.machine_db in
      let (a, b) =
        with_tokens_err (rotating config old env machine) rotate_status
          (record api { machine_db = (machines.first p (λ m. none) api.machine_db).1 })
          (λ x s' h.
            rotate_err tokens tx config.token_ttl machine.mac old env.id env.value env.purge env.now
              api.token_db h)
          (rw f at e) in
      (a, b ∙ q)

  token_refused :
      (r : Result ℕ Token × Api Profile machines tokens) {n : ℕ}
      {api' : Api Profile machines tokens}
      → respond_token Profile machines tokens parse_uuid render r ≡ (error_status n, api')
      → (m : ℕ) × (r ≡ (err m, api'))
  token_refused (ok t, api) h = absurd (cc)
  token_refused (err m, api) h = (m, ground arith)

  refresh_refused :
      (config : Config) (old : Text) (env : Ambient) (o : Option ℕ)
      (api : Api Profile machines tokens) {n : ℕ} {api' : Api Profile machines tokens}
      → refresh Profile machines tokens parse_uuid render tx config old env o api ≡ (err n, api')
      → (tokens.rows api'.token_db ≡ tokens.rows api.token_db)
        × (machines.rows api'.machine_db ≡ machines.rows api.machine_db)
  unfolding fetch_machine_by_id
  refresh_refused config old env none api e = (ground arith, ground arith)
  refresh_refused config old env (some id) api e = elim (Bool-cases (is_empty old)) [
    | inl y ↦ (ground arith, ground arith)
    | inr n ↦ refused config old env (λ m. m.id == id) api _ refl (rw n at e)
  ]

  -- A refresh that is answered by an error, also one that does not decode, leaves the tokens and the
  -- machines as they were.
  pub handle_refresh_err :
      (config : Config) (req : Option TokenRefreshRequest) (env : Ambient)
      (api : Api Profile machines tokens) {n : ℕ} {api' : Api Profile machines tokens}
      → handle_agent_token_refresh Profile machines tokens parse_uuid render tx config req env api
        ≡ (error_status n, api')
      → (tokens.rows api'.token_db ≡ tokens.rows api.token_db)
        × (machines.rows api'.machine_db ≡ machines.rows api.machine_db)
  unfolding handle_agent_token_refresh
  handle_refresh_err config none env api h = (ground arith, ground arith)
  handle_refresh_err config (some req) env api h =
      let (m, e) =
        token_refused
          (refresh_token Profile machines tokens parse_uuid render tx config (some req) env api)
          h in
      refresh_refused config (trim_space req.old_token) env _ api e
