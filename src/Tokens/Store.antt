-- ===== src/Tokens/Store.antt =====
-- services/api/token_store.go, token.go and token_model.go: the operations of tokenStore. What
-- uuid.New and uuid.NewString return is an argument, and so is the time at each call of `ts.now`.
-- The columns created_at and updated_at, which no query reads, are left out.
use goosed.Support.{
  ℕ, ◌+◌, Bool, true, false, not, ◌&&◌, Option, none, some, [], ◌∷◌, ◌==◌, ltb, leb, if◌then◌else◌,
}
use goosed.Support.Text.{Text, text_eq, to_lower, trim_space}
use goosed.Support.Results.{Result, ok, err, Method, return, fail, ◌>>=◌, ◌>>◌}
use goosed.Gorm.Table.{DbError, record_not_found, failure, Table}
use goosed.Gorm.Transaction.{Transactions}

-- tokenModel
pub record TokenModel : Type 0 where
  pub id : ℕ
  pub mac : Text
  pub token : Text
  pub expires_at : ℕ
  pub used : Bool

-- Token
pub record Token : Type 0 where
  pub id : ℕ
  pub mac : Text
  pub value : Text
  pub expires_at : ℕ
  pub used : Bool

-- tokenModel.toToken
abbrev pub to_token : TokenModel → Token
to_token m = record {
  id = m.id;
  mac = m.mac;
  value = m.token;
  expires_at = m.expires_at;
  used = m.used;
}

pub data TokenError : Type 0 where
  mac_required token_required old_token_required token_not_found token_expired : TokenError
  database : DbError → TokenError

abbrev pub is_empty : Text → Bool
is_empty [] = true
is_empty (c ∷ s) = false

-- strings.TrimSpace(strings.ToLower(mac))
unfoldable pub normalize : Text → Text
unfolding trim_space to_lower
normalize mac = trim_space (to_lower mac)

-- expires_at <= now
abbrev pub is_expired : ℕ → TokenModel → Bool
is_expired now r = leb r.expires_at now

-- mac = ? AND used = FALSE AND expires_at > ?
abbrev pub is_usable : Text → ℕ → TokenModel → Bool
is_usable mac now r = text_eq r.mac mac && not r.used && ltb now r.expires_at

-- mac = ? AND token = ?
abbrev pub is_token_of : Text → Text → TokenModel → Bool
is_token_of mac value r = text_eq r.mac mac && text_eq r.token value

abbrev pub use_up : TokenModel → TokenModel
use_up r = record r { used = true }

abbrev pub invalidate : ℕ → TokenModel → TokenModel
invalidate now r = record r { used = true; expires_at = now }

abbrev pub new_token : Text → ℕ → Text → ℕ → TokenModel
new_token mac id value expires_at = record {
  id = id;
  mac = mac;
  token = value;
  expires_at = expires_at;
  used = false;
}

module _ (table : Table TokenModel) where
  abbrev pub Store : Type 0 → Type 0
  Store A = Method table.State TokenError A

  abbrev pub as_error : {A : Type 0} → Result DbError A → Result TokenError A
  as_error (ok a) = ok a
  as_error (err e) = err (database e)

  abbrev pub lift :
      {A : Type 0} → Result DbError A × table.State → Result TokenError A × table.State
  lift (r, s) = (as_error r, s)

  -- purgeExpired
  unfoldable pub purge_expired : ℕ → Store (Unit {0})
  purge_expired now s = lift (table.delete (is_expired now) s)

  -- Issue, with the lifetime `ttl` of the store and the times of its two calls of `now`
  unfoldable pub issue : ℕ → Text → ℕ → Text → ℕ → ℕ → Store Token
  unfolding purge_expired
  issue ttl raw id value purge_now now =
      let mac = normalize raw in
      let model = new_token mac id value (now + ttl) in
      if is_empty mac
      then fail mac_required
      else do purge_expired purge_now; λ s. lift (table.create model s); return (to_token model)

  abbrev pub found_active :
      Result DbError TokenModel × table.State → Result TokenError (Option Token) × table.State
  found_active (ok model, s) = (ok (some (to_token model)), s)
  found_active (err record_not_found, s) = (ok none, s)
  found_active (err (failure n), s) = (err (database (failure n)), s)

  -- Active
  unfoldable pub active : Text → ℕ → ℕ → Store (Option Token)
  unfolding purge_expired
  active raw purge_now now =
      let mac = normalize raw in
      if is_empty mac then fail mac_required else do
        purge_expired purge_now
        λ s. found_active (table.first (is_usable mac now) (λ r. some r.expires_at) s)

  abbrev pub some_affected : ℕ → Store (Unit {0})
  some_affected n = if n == 0 then fail token_not_found else return tt

  -- MarkUsed
  unfoldable pub mark_used : Text → Store (Unit {0})
  mark_used raw =
      let value = trim_space raw in
      if is_empty value
      then fail token_required
      else do n ← λ s. lift (table.update (λ r. text_eq r.token value) use_up s); some_affected n

  abbrev pub found_current :
      Result DbError TokenModel × table.State → Result TokenError TokenModel × table.State
  found_current (ok model, s) = (ok model, s)
  found_current (err record_not_found, s) = (err token_not_found, s)
  found_current (err (failure n), s) = (err (database (failure n)), s)

  -- The statements of Rotate within its transaction. The order by primary key that First adds is
  -- not used: a token stands in one row.
  unfoldable pub replace : ℕ → Text → Text → ℕ → Text → ℕ → ℕ → Store TokenModel
  unfolding purge_expired
  replace ttl mac old id value purge_now now = do
    purge_expired purge_now
    current ← λ s. found_current (table.first (is_token_of mac old) (λ r. none) s)
    if leb current.expires_at now then fail token_expired else return tt
    λ s. lift (table.update (λ r. r.id == current.id) (invalidate now) s)
    λ s. lift (table.create (new_token mac id value (now + ttl)) s)
    return (new_token mac id value (now + ttl))

  module _ (tx : Transactions table) where
    abbrev pub committed :
        TokenModel → Result DbError (Unit {0}) × table.State → Result TokenError Token × table.State
    committed model (ok _, s) = (ok (to_token model), s)
    committed model (err e, s) = (err (database e), s)

    -- How Rotate ends its transaction.
    abbrev pub settle :
        table.State
        → Result TokenError TokenModel × table.State
        → Result TokenError Token × table.State
    settle before (ok model, s) = committed model (tx.commit before s)
    settle before (err e, s) = (err e, tx.rollback before s)

    abbrev pub transact :
        Store TokenModel
        → table.State
        → Result DbError (Unit {0}) × table.State
        → Result TokenError Token × table.State
    transact body before (ok _, s) = settle before (body s)
    transact body before (err e, s) = (err (database e), s)

    -- Rotate
    unfoldable pub rotate : ℕ → Text → Text → ℕ → Text → ℕ → ℕ → Store Token
    rotate ttl raw raw_old id value purge_now now s =
        let mac = normalize raw in
        let old = trim_space raw_old in
        if is_empty mac
        then (err mac_required, s)
        else if is_empty old
        then (err old_token_required, s)
        else transact (replace ttl mac old id value purge_now now) s (tx.begin s)
