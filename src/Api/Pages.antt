-- ===== src/Api/Pages.antt =====
-- services/api/handlers_boot.go, handleIPXE: the token of a page.
use goosed.Support.{
  ℕ, ◌≡◌, ◌≢◌, refl, sym, ap, subst, Option, none, some, List, [], ◌∷◌, inl, inr, arith, Bool-cases,
  ◌∙◌, keep, length,
}
use goosed.Support.Text.{Text, lit, text_eq, text_eq_iff, trim_space}
use goosed.Support.Results.{Result, ok, err, and_then, and_then-ok}
use goosed.Gorm.Table.{Table, Member, updated}
use goosed.Tokens.Store.{TokenModel, Token, is_empty, mark_used, use_up}
use goosed.Tokens.Lookup.{issue_lem}
use goosed.Tokens.Use.{mark_used_ok, used_not_active}
use goosed.Api.Boot.{
  MachineModel, Config, PageRequest, Ambient, Payload, ipxe_data, page, requested_mac, api_base_of,
  Api, fetch_machine, fetch_machine_by_mac, ipxe_for, ipxe_payload, handle_ipxe, respond_page,
}
use goosed.Api.Served.{
  Fetched, fetch_machine-Fetched, IpxeServed, ipxe_for-IpxeServed, Drawn, found, drawn,
}

used_stored :
    (value : Text) (rows : List TokenModel)
    → length (keep (λ r. text_eq r.token value) rows) ≢ 0
    → (r : TokenModel) × Member r (updated (λ x. text_eq x.token value) use_up rows)
      × (r.token ≡ value)
unfolding keep updated
used_stored value [] n = absurd (n refl)
used_stored value (x ∷ rows) n = elim (Bool-cases (text_eq x.token value)) [
  | inl y ↦ (use_up x, inl (rw y refl), (text_eq_iff x.token value).0 y)
  | inr m ↦ let (r, k, e) = used_stored value rows (rw m at n) in (r, inr k, e)
]

module _ (Profile : Type 0) (machines : Table (MachineModel Profile)) (tokens : Table TokenModel)
    (parse_uuid : Text → Option ℕ) (render : Text → Payload Profile → Option Text) where
  -- A page of handleIPXE was rendered for a machine of the table.
  pub record IpxePage (config : Config) (req : PageRequest) (env : Ambient) (body : Text)
      (before after : Api Profile machines tokens) : Type 0 where
    pub machine : MachineModel Profile
    pub fetched :
        Fetched Profile machines tokens (λ m. text_eq m.mac (requested_mac req.mac)) machine before
    pub payload : Payload Profile
    pub served :
        IpxeServed Profile machines tokens config req env machine before.token_db after.token_db
          payload
    pub rendered : render (lit "ipxe.tmpl") payload ≡ some body

  pub served_page :
      (template content_type ct body : Text)
      (r : Result ℕ (Payload Profile) × Api Profile machines tokens)
      {api' : Api Profile machines tokens}
      → respond_page Profile machines tokens parse_uuid render template content_type r
        ≡ (page ct body, api')
      → (p : Payload Profile) × (r ≡ (ok p, api')) × (render template p ≡ some body)
  served_page template content_type ct body (err n, api) h = absurd (cc)
  served_page template content_type ct body (ok p, api) {api'} h = go (render template p) refl
    where
      go :
          (o : Option Text)
          → render template p ≡ o
          → (q : Payload Profile) × (◌≡◌
              {A = Result ℕ (Payload Profile) × Api Profile machines tokens}
              (ok p, api)
              (ok q, api'))
            × (render template q ≡ some body)
      go none e = absurd (ground arith)
      go (some b) e = (p, ground arith, ground arith)

  payload_page :
      (config : Config) (req : PageRequest) (env : Ambient) (body : Text)
      (api : Api Profile machines tokens) {payload : Payload Profile}
      {api' : Api Profile machines tokens}
      → ipxe_payload Profile machines tokens config req env api ≡ (ok payload, api')
      → render (lit "ipxe.tmpl") payload ≡ some body
      → IpxePage config req env body api api'
  unfolding ipxe_payload fetch_machine_by_mac
  payload_page config req env body api {payload} {api'} e r =
      elim (Bool-cases (is_empty (requested_mac req.mac))) [
        | inl y ↦ absurd (ground arith)
        | inr n ↦ go (rw n at e)
      ]
    where
      asked : Result ℕ (MachineModel Profile) × Api Profile machines tokens
      asked = fetch_machine Profile machines tokens (λ m. text_eq m.mac (requested_mac req.mac)) api

      go :
          and_then asked (ipxe_for Profile machines tokens config req env) ≡ (ok payload, api')
          → IpxePage config req env body api api'
      go h =
          let (machine, f, h') = and_then-ok asked _ h in
          record {
            machine = machine;
            fetched = fetch_machine-Fetched Profile machines tokens _ api f;
            payload = payload;
            served = ipxe_for-IpxeServed Profile machines tokens config req env machine _ h';
            rendered = r;
          }

  -- handleIPXE answers by a page only for a machine of the table with the address of the request in
  -- small letters and without space around it. The page is rendered from a token and the machine's
  -- own address; the token is one that Active found for it, or else a new one, and is marked used.
  pub handle_ipxe-IpxePage :
      (config : Config) (req : PageRequest) (env : Ambient) (api : Api Profile machines tokens)
      {ct body : Text} {api' : Api Profile machines tokens}
      → handle_ipxe Profile machines tokens parse_uuid render config req env api
        ≡ (page ct body, api')
      → IpxePage config req env body api api'
  unfolding handle_ipxe
  handle_ipxe-IpxePage config req env api {ct} {body} {api'} h =
      let (p, e, r) =
        served_page (lit "ipxe.tmpl") (lit "text/plain") ct body
          (ipxe_payload Profile machines tokens config req env api) h in
      payload_page config req env body api e r

  Drawn-fresh :
      (config : Config) (env : Ambient) (mac used : Text) (before middle : tokens.State) {t : Token}
      {s : tokens.State}
      → mark_used tokens used before ≡ (ok tt, middle)
      → ((r : TokenModel) → Member r (tokens.rows middle) → r.token ≢ env.value)
      → Drawn Profile machines tokens config env mac middle t s
      → t.value ≢ trim_space used
  Drawn-fresh config env mac used before middle m n (found a) =
      used_not_active tokens used mac env.active_purge env.active_now before m a
  Drawn-fresh config env mac used before middle m n (drawn {s = s} a i) = λ q.
      let (_, t, _) =
        issue_lem tokens config.token_ttl mac env.id env.value env.purge env.now s i in
      let (rows, some_row) = mark_used_ok tokens used before m in
      let (r, k, e) = used_stored (trim_space used) (tokens.rows before) some_row in
      n r (subst (Member r) (sym rows) k) (e ∙ sym q ∙ ap (λ (z : Token). z.value) t)

  -- Of two pages of handleIPXE in a row, for any machines, the second carries another token than the
  -- first, read without space around it, if the value that the second request would give a new token
  -- is not in the table.
  pub pages_differ :
      (config : Config) (req req' : PageRequest) (env env' : Ambient)
      (api : Api Profile machines tokens) {ct ct' body body' : Text}
      {api' api'' : Api Profile machines tokens}
      → handle_ipxe Profile machines tokens parse_uuid render config req env api
        ≡ (page ct body, api')
      → ((r : TokenModel) → Member r (tokens.rows api'.token_db) → r.token ≢ env'.value)
      → handle_ipxe Profile machines tokens parse_uuid render config req' env' api'
        ≡ (page ct' body', api'')
      → (t t' mac mac' : Text) × (render
            (lit "ipxe.tmpl")
            (ipxe_data t mac (api_base_of config req))
          ≡ some body)
        × (render (lit "ipxe.tmpl") (ipxe_data t' mac' (api_base_of config req')) ≡ some body')
        × (t' ≢ trim_space t)
  pages_differ config req req' env env' api {api' = api'} h n h' =
      let one = handle_ipxe-IpxePage config req env api h in
      let two = handle_ipxe-IpxePage config req' env' api' h' in
      (
        one.served.token.value,
        two.served.token.value,
        one.machine.mac,
        two.machine.mac,
        rw one.served.data_of at one.rendered,
        rw two.served.data_of at two.rendered,
        Drawn-fresh config env' two.machine.mac one.served.token.value one.served.drawn_at
            api'.token_db one.served.used n two.served.origin,
      )
