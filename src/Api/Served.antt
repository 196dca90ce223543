-- ===== src/Api/Served.antt =====
-- services/api/handlers_boot.go and handlers_tokens.go: what a handler has done when it succeeds.
use goosed.Support.{ℕ, ◌≡◌, refl, sym, ap, subst, Bool, true, Option, none, some, arith, ◌∙◌}
use goosed.Support.Text.{Text}
use goosed.Support.Results.{Result, ok, err, and_then-ok, ok-injective}
use goosed.Gorm.Table.{Table, Member}
use goosed.Tokens.Store.{TokenModel, Token, TokenError, Store, issue, active, mark_used}
use goosed.Api.Boot.{
  MachineModel, Config, PageRequest, Ambient, Payload, ipxe_data, api_base_of, any_status,
  machine_status, with_status, Api, with_tokens, fetch_machine, or_issue, take_token, ipxe_for,
}

with_status-ok :
    {E A : Type 0} (status : E → ℕ) (r : Result E A) {a : A}
    → with_status status r ≡ ok a
    → r ≡ ok a
with_status-ok status (ok a) h = cc
with_status-ok status (err e) h = absurd (cc)

module _ (Profile : Type 0) (machines : Table (MachineModel Profile))
    (tokens : Table TokenModel) where
  -- A machine of the table that a request is about.
  pub record Fetched (p : MachineModel Profile → Bool) (machine : MachineModel Profile)
      (api : Api Profile machines tokens) : Type 0 where
    pub stored : Member machine (machines.rows api.machine_db)
    pub asked : p machine ≡ true

  pub fetch_machine-Fetched :
      (p : MachineModel Profile → Bool) (api : Api Profile machines tokens)
      {m : MachineModel Profile}
      → (fetch_machine Profile machines tokens p api).0 ≡ ok m
      → Fetched p m api
  fetch_machine-Fetched p api {m} h =
      let r = with_status-ok machine_status _ h in
      let (stored, asked, _) = machines.first_found p (λ x. none) api.machine_db m r in
      record { stored = stored; asked = asked }

  pub with_tokens-ok :
      {A : Type 0} (status : TokenError → ℕ) (m : Store tokens A)
      (api : Api Profile machines tokens) {a : A}
      → (with_tokens Profile machines tokens status m api).0 ≡ ok a
      → m api.token_db ≡ (ok a, (m api.token_db).1)
  with_tokens-ok status m api h =
      ap (λ z. (z, (m api.token_db).1)) (with_status-ok status (m api.token_db).0 h)

  -- Where the token of a page comes from: the store, or a new one.
  pub data Drawn (config : Config) (env : Ambient) (mac : Text) (before : tokens.State)
      : Token → tokens.State → Type 0 where
    found :
        {token : Token} {s : tokens.State}
        → active tokens mac env.active_purge env.active_now before ≡ (ok (some token), s)
        → Drawn config env mac before token s
    drawn :
        {token : Token} {s s' : tokens.State}
        → active tokens mac env.active_purge env.active_now before ≡ (ok none, s)
        → issue tokens config.token_ttl mac env.id env.value env.purge env.now s ≡ (ok token, s')
        → Drawn config env mac before token s'

  or_issue-Drawn :
      (config : Config) (env : Ambient) (mac : Text) (before : tokens.State) (o : Option Token)
      (api : Api Profile machines tokens) {token : Token}
      → active tokens mac env.active_purge env.active_now before ≡ (ok o, api.token_db)
      → (or_issue Profile machines tokens config env mac o api).0 ≡ ok token
      → Drawn config env mac before token
          (or_issue Profile machines tokens config env mac o api).1.token_db
  or_issue-Drawn config env mac before (some t) api a h =
      let p : t ≡ _ = ok-injective h in
      subst (λ z. Drawn config env mac before z api.token_db) p (found a)
  or_issue-Drawn config env mac before none api a h = drawn a (
      with_tokens-ok any_status
        (issue tokens config.token_ttl mac env.id env.value env.purge env.now) api h)

  take_token-Drawn :
      (config : Config) (env : Ambient) (mac : Text) (api : Api Profile machines tokens)
      {token : Token}
      → (take_token Profile machines tokens config env mac api).0 ≡ ok token
      → Drawn config env mac api.token_db token
          (take_token Profile machines tokens config env mac api).1.token_db
  take_token-Drawn config env mac api {token} h =
      go (active tokens mac env.active_purge env.active_now api.token_db) refl
    where
      go :
          (r : Result TokenError (Option Token) × tokens.State)
          → active tokens mac env.active_purge env.active_now api.token_db ≡ r
          → Drawn config env mac api.token_db token
              (take_token Profile machines tokens config env mac api).1.token_db
      go (err x, s) q = absurd (ground arith)
      go (ok o, s) q =
          rw q (
            or_issue-Drawn config env mac api.token_db o (record api { token_db = s }) q
              (rw q at h))

  pub record IpxeServed (config : Config) (req : PageRequest) (env : Ambient)
      (machine : MachineModel Profile) (before after : tokens.State) (payload : Payload Profile)
      : Type 0 where
    pub token : Token
    pub drawn_at : tokens.State
    pub origin : Drawn config env machine.mac before token drawn_at
    pub used : mark_used tokens token.value drawn_at ≡ (ok tt, after)
    pub data_of : payload ≡ ipxe_data token.value machine.mac (api_base_of config req)

  pub ipxe_for-IpxeServed :
      (config : Config) (req : PageRequest) (env : Ambient) (machine : MachineModel Profile)
      (api : Api Profile machines tokens) {payload : Payload Profile}
      {api' : Api Profile machines tokens}
      → ipxe_for Profile machines tokens config req env machine api ≡ (ok payload, api')
      → IpxeServed config req env machine api.token_db api'.token_db payload
  ipxe_for-IpxeServed config req env machine api {payload} {api'} e =
      let taken = take_token Profile machines tokens config env machine.mac api in
      let (t, g, e1) = and_then-ok taken _ e in
      let mark =
        with_tokens Profile machines tokens any_status (mark_used tokens t.value) taken.1 in
      let (u, h, e2) = and_then-ok mark _ e1 in
      let marked = with_tokens-ok any_status (mark_used tokens t.value) taken.1 h in
      let same : ◌≡◌ {A = Result ℕ (Payload Profile) × Api Profile machines tokens}
          (ok (ipxe_data t.value machine.mac (api_base_of config req)), mark.1) (ok payload, api') =
        e2 in
      record {
        token = t;
        drawn_at = taken.1.token_db;
        origin = take_token-Drawn config env machine.mac api g;
        used = marked ∙ ap (λ z. (ok tt, z.1.token_db)) same;
        data_of = sym (ok-injective (ap (λ z. z.0) same));
      }
