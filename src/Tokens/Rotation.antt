-- ===== src/Tokens/Rotation.antt =====
-- services/api/token_store.go, Rotate: all or nothing.
use goosed.Support.{ℕ, ◌+◌, ◌≡◌, refl, sym, ap, subst, inl, inr, arith, Bool-cases, ◌∙◌}
use goosed.Support.Text.{Text, trim_space}
use goosed.Support.Results.{Result, ok, err}
use goosed.Gorm.Table.{DbError, Table}
use goosed.Gorm.Transaction.{Transactions}
use goosed.Tokens.Store.{
  TokenModel, Token, to_token, TokenError, is_empty, normalize, new_token, replace, rotate, settle,
  transact, Store,
}
use goosed.Tokens.Replace.{Rotated, replace_ok}

module _ (table : Table TokenModel) (tx : Transactions table) where
  settle_err :
      (before : table.State) (r : Result TokenError TokenModel × table.State) {x : TokenError}
      {s' : table.State}
      → settle table tx before r ≡ (err x, s')
      → table.rows s' ≡ table.rows before
  settle_err before (ok model, t) {s' = s'} e = go (tx.commit before t).0 refl
    where
      go :
          (c : Result DbError (Unit {0}))
          → (tx.commit before t).0 ≡ c
          → table.rows s' ≡ table.rows before
      go (ok u) f = absurd (ground arith)
      go (err y) f = let p = tx.commit_err before t y f in ground (arith, p)
  settle_err before (err y, t) e = let p = tx.rows-rollback before t in ground (arith, p)

  transact_err :
      (body : table.State → Result TokenError TokenModel × table.State) (before : table.State)
      (r : Result DbError (Unit {0})) {x : TokenError} {s' : table.State}
      → transact table tx body before (r, (tx.begin before).1) ≡ (err x, s')
      → table.rows s' ≡ table.rows before
  transact_err body before (ok u) e = settle_err before (body (tx.begin before).1) e
  transact_err body before (err y) e = let p = tx.rows-begin before in ground (arith, p)

  -- A Rotate that fails, for whatever reason, leaves the rows as they were, the expired ones too.
  pub rotate_err :
      (ttl : ℕ) (raw raw_old : Text) (id : ℕ) (value : Text) (purge_now now : ℕ) (s : table.State)
      {x : TokenError} {s' : table.State}
      → rotate table tx ttl raw raw_old id value purge_now now s ≡ (err x, s')
      → table.rows s' ≡ table.rows s
  unfolding rotate
  rotate_err ttl raw raw_old id value purge_now now s e =
      elim (Bool-cases (is_empty (normalize raw))) [
        | inl y ↦ ground arith
        | inr n ↦ elim (Bool-cases (is_empty (trim_space raw_old))) [
          | inl y ↦ ground arith
          | inr m ↦ transact_err _ s (tx.begin s).0 (rw (n, m) at e)
        ]
      ]

  settle_ok :
      (before : table.State) (r : Result TokenError TokenModel × table.State) {t : Token}
      {s' : table.State}
      → settle table tx before r ≡ (ok t, s')
      → (model : TokenModel) × (r.0 ≡ ok model)
        × (t ≡ to_token model)
        × (table.rows s' ≡ table.rows r.1)
  settle_ok before (err y, u) e = absurd (cc)
  settle_ok before (ok model, u) {t} {s'} e = go (tx.commit before u).0 refl
    where
      go :
          (c : Result DbError (Unit {0}))
          → (tx.commit before u).0 ≡ c
          → (m : TokenModel) × (◌≡◌ {A = Result TokenError TokenModel} (ok model) (ok m))
            × (t ≡ to_token m)
            × (table.rows s' ≡ table.rows u)
      go (err y) f = absurd (ground arith)
      go (ok v) f =
          let p = tx.commit_ok before u v f in (model, refl, ground arith, ground (arith, p))

  transact_ok :
      (body : Store table TokenModel) (before : table.State)
      (r : Result DbError (Unit {0}) × table.State) {t : Token} {s' : table.State}
      → transact table tx body before r ≡ (ok t, s')
      → settle table tx before (body r.1) ≡ (ok t, s')
  transact_ok body before (ok u, s) e = e
  transact_ok body before (err y, s) e = absurd (cc)

  replaced_ok :
      (ttl : ℕ) (mac old : Text) (id : ℕ) (value : Text) (purge_now now : ℕ) (s : table.State)
      {token : Token} {s' : table.State}
      → transact table tx (replace table ttl mac old id value purge_now now) s (tx.begin s)
        ≡ (ok token, s')
      → Rotated ttl mac old id value purge_now now (table.rows s) (table.rows s')
        × (token ≡ to_token (new_token mac id value (now + ttl)))
  replaced_ok ttl mac old id value purge_now now s e =
      let began = (tx.begin s).1 in
      let body = replace table ttl mac old id value purge_now now in
      let (model, r, t, q) = settle_ok s (body began) (transact_ok body s (tx.begin s) e) in
      let (rotated, m) =
        replace_ok table ttl mac old id value purge_now now began
          (ap (λ z. (z, (body began).1)) r) in
      let from : Rotated ttl mac old id value purge_now now (table.rows s)
          (table.rows (body began).1) =
        subst (λ z. Rotated ttl mac old id value purge_now now z (table.rows (body began).1))
          (tx.rows-begin s) rotated in
      (
        subst (Rotated ttl mac old id value purge_now now (table.rows s)) (sym q) from,
        t ∙ ap to_token m,
      )

  -- A successful Rotate found a row of the normalised address and the presented token that lasts
  -- beyond `now`. It drops the expired rows, marks the rows of that row's id as used and expired
  -- at `now`, adds one row, the new token, and returns that token.
  pub rotate_ok :
      (ttl : ℕ) (raw raw_old : Text) (id : ℕ) (value : Text) (purge_now now : ℕ) (s : table.State)
      {token : Token} {s' : table.State}
      → rotate table tx ttl raw raw_old id value purge_now now s ≡ (ok token, s')
      → Rotated ttl
          (normalize raw)
          (trim_space raw_old)
          id
          value
          purge_now
          now
          (table.rows s)
          (table.rows s')
        × (token ≡ to_token (new_token (normalize raw) id value (now + ttl)))
  unfolding rotate
  rotate_ok ttl raw raw_old id value purge_now now s e =
      elim (Bool-cases (is_empty (normalize raw))) [
        | inl y ↦ absurd (ground arith)
        | inr n ↦ elim (Bool-cases (is_empty (trim_space raw_old))) [
          | inl y ↦ absurd (ground arith)
          | inr m ↦
              replaced_ok ttl (normalize raw) (trim_space raw_old) id value purge_now now s
                (rw (n, m) at e)
        ]
      ]
