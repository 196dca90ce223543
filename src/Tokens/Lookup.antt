-- ===== src/Tokens/Lookup.antt =====
-- services/api/token_store.go, Issue, Active and MarkUsed.
use goosed.Support.{
  ℕ, ◌+◌, ◌≤◌, ◌<◌, ◌≡◌, ◌≢◌, refl, subst, true, false, not, Option, none, some, List, [], ◌∷◌,
  ◌++◌, leb, inl, inr, arith, Bool-cases, keep, All, All-map, leb→le, ◌∙◌,
}
use goosed.Support.Text.{Text, text_eq_iff}
use goosed.Support.Results.{Result, ok, err, and_then}
use goosed.Gorm.Table.{DbError, record_not_found, failure, Table, Member}
use goosed.Tokens.Store.{
  TokenModel, Token, to_token, is_empty, normalize, is_expired, is_usable, new_token, issue, active,
  found_active, lift,
}

module _ (table : Table TokenModel) where
  -- A successful Issue returns an unused token of the normalised address, which is not empty, that
  -- lasts for the lifetime of the store; its row is added, the expired rows are gone, and no other
  -- row changes.
  pub issue_lem :
      (ttl : ℕ) (raw : Text) (id : ℕ) (value : Text) (purge_now now : ℕ) (s : table.State)
      {token : Token} {s' : table.State}
      → issue table ttl raw id value purge_now now s ≡ (ok token, s')
      → (normalize raw ≢ [])
        × (token ≡ to_token (new_token (normalize raw) id value (now + ttl)))
        × (table.rows s'
            ≡ keep (λ r. not (is_expired purge_now r)) (table.rows s)
              ++ new_token (normalize raw) id value (now + ttl) ∷ [])
  unfolding issue
  issue_lem ttl raw id value purge_now now s e =
      let purged = table.delete_ok (is_expired purge_now) s tt in
      let added =
        table.create_ok (new_token (normalize raw) id value (now + ttl))
          (table.delete (is_expired purge_now) s).1 tt in
      (λ n. ground (arith, n), ground arith, ground (arith, purged, added))

  -- A token that Active may return, and no later one may it.
  pub record IsLatest (mac : Text) (now : ℕ) (rows : List TokenModel) (token : Token) : Type 0 where
    pub row : TokenModel
    pub stored : Member row rows
    pub same : to_token row ≡ token
    pub own : token.mac ≡ mac
    pub unused : token.used ≡ false
    pub lasting : now < token.expires_at
    pub latest : All (λ r. is_usable mac now r ≡ true → r.expires_at ≤ token.expires_at) rows

  abbrev pub ActiveResult : Text → ℕ → List TokenModel → Option Token → Type 0
  ActiveResult mac now rows (some token) = IsLatest mac now rows token
  ActiveResult mac now rows none = All (λ r. is_usable mac now r ≡ false) rows

  usable-IsLatest :
      (mac : Text) (now : ℕ) (rows : List TokenModel) (r : TokenModel)
      → Member r rows
      → is_usable mac now r ≡ true
      → All (λ x. is_usable mac now x ≡ true → leb x.expires_at r.expires_at ≡ true) rows
      → IsLatest mac now rows (to_token r)
  usable-IsLatest mac now rows r m u a = record {
    row = r;
    stored = m;
    same = refl;
    own = ground (arith, text_eq_iff r.mac mac);
    unused = ground arith;
    lasting = ground arith;
    latest = All-map _ _ (λ x h v. leb→le x.expires_at r.expires_at (h v)) rows a;
  }

  found_result :
      (mac : Text) (now : ℕ) (s : table.State) {o : Option Token} {s' : table.State}
      (r : Result DbError TokenModel)
      → (table.first (is_usable mac now) (λ r. some r.expires_at) s).0 ≡ r
      → found_active table (r, (table.first (is_usable mac now) (λ r. some r.expires_at) s).1)
        ≡ (ok o, s')
      → ActiveResult mac now (table.rows s') o × (table.rows s' ≡ table.rows s)
  found_result mac now s {o} {s'} (err (failure n)) f e = absurd (cc)
  found_result mac now s {o} {s'} (err record_not_found) f e =
      let rows = table.rows-first (is_usable mac now) (λ r. some r.expires_at) s in
      let q : table.rows s' ≡ table.rows s = ground (arith, rows) in
      let p : none ≡ o = cc in
      (
        subst (λ z. ActiveResult mac now (table.rows s') z) p (rw q (table.first_missing _ _ s f)),
        q,
      )
  found_result mac now s {o} {s'} (ok r) f e =
      let rows = table.rows-first (is_usable mac now) (λ r. some r.expires_at) s in
      let q : table.rows s' ≡ table.rows s = ground (arith, rows) in
      let p : some (to_token r) ≡ o = cc in
      let (m, u, a) = table.first_found (is_usable mac now) (λ r. some r.expires_at) s r f in
      (
        subst (λ z. ActiveResult mac now (table.rows s') z) p
            (rw q (usable-IsLatest mac now (table.rows s) r m u a)),
        q,
      )

  purged_found :
      (mac : Text) (purge_now now : ℕ) (s : table.State) {o : Option Token} {s' : table.State}
      (r : Result DbError (Unit {0}))
      → (table.delete (is_expired purge_now) s).0 ≡ r
      → (and_then
          (lift table (r, (table.delete (is_expired purge_now) s).1))
          (λ _ t. found_active table (table.first (is_usable mac now) (λ r. some r.expires_at) t)))
        ≡ (ok o, s')
      → ActiveResult mac now (table.rows s') o
        × (table.rows s' ≡ keep (λ r. not (is_expired purge_now r)) (table.rows s))
  purged_found mac purge_now now s (err x) d e = absurd (cc)
  purged_found mac purge_now now s (ok u) d e =
      let (a, q) = found_result mac now _ _ refl e in
      (a, q ∙ table.delete_ok (is_expired purge_now) s u d)

  -- A successful Active drops the expired rows and no other. It returns an unused token of the
  -- normalised address that lasts beyond `now`, of those that last the longest; or nothing, and
  -- then no row is such a token.
  pub active_lem :
      (raw : Text) (purge_now now : ℕ) (s : table.State) {o : Option Token} {s' : table.State}
      → active table raw purge_now now s ≡ (ok o, s')
      → ActiveResult (normalize raw) now (table.rows s') o
        × (table.rows s' ≡ keep (λ r. not (is_expired purge_now r)) (table.rows s))
  unfolding active
  active_lem raw purge_now now s e = elim (Bool-cases (is_empty (normalize raw))) [
    | inl y ↦ absurd (ground arith)
    | inr n ↦ purged_found (normalize raw) purge_now now s _ refl (rw n at e)
  ]
