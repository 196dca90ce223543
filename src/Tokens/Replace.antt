-- ===== src/Tokens/Replace.antt =====
-- services/api/token_store.go, Rotate: the statements of its transaction.
use goosed.Support.{
  ℕ, ◌+◌, ◌<◌, ◌≡◌, refl, sym, ap, subst, not, none, List, [], ◌∷◌, ◌++◌, ◌==◌, leb, if◌then◌else◌,
  inl, inr, arith, Bool-cases, keep, ◌∙◌,
}
use goosed.Support.Text.{Text, text_eq_iff}
use goosed.Support.Results.{Result, ok, err, and_then-ok, ok-injective, ◌>>◌, fail, return}
use goosed.Gorm.Table.{DbError, record_not_found, failure, Table, Member, updated}
use goosed.Gorm.Rows.{Member-keep}
use goosed.Tokens.Store.{
  TokenModel, is_expired, is_token_of, invalidate, new_token, purge_expired, found_current, replace,
  lift, token_expired, Store,
}

-- What a successful Rotate has done to the rows.
pub record Rotated (ttl : ℕ) (mac old : Text) (id : ℕ) (value : Text) (purge_now now : ℕ)
    (before after : List TokenModel) : Type 0 where
  pub current : TokenModel
  pub stored : Member current before
  pub own : current.mac ≡ mac
  pub presented : current.token ≡ old
  pub lasting : now < current.expires_at
  pub rows :
      after
      ≡ updated
          (λ r. r.id == current.id)
          (invalidate now)
          (keep (λ r. not (is_expired purge_now r)) before)
        ++ new_token mac id value (now + ttl) ∷ []

module _ (table : Table TokenModel) where
  found_current-ok :
      (r : Result DbError TokenModel × table.State) {m : TokenModel}
      → (found_current table r).0 ≡ ok m
      → (r.0 ≡ ok m) × ((found_current table r).1 ≡ r.1)
  found_current-ok (ok m, s) h = (cc, refl)
  found_current-ok (err record_not_found, s) h = absurd (cc)
  found_current-ok (err (failure n), s) h = absurd (cc)

  lift-ok :
      {A : Type 0} (r : Result DbError A × table.State) {a : A}
      → (lift table r).0 ≡ ok a
      → r.0 ≡ ok a
  lift-ok (ok a, s) h = cc
  lift-ok (err x, s) h = absurd (cc)

  current_lasts :
      (now expires_at : ℕ) (s : table.State) {v : Unit {0}}
      → ((if leb expires_at now then fail {A = Unit {0}} token_expired else return tt) s).0 ≡ ok v
      → (now < expires_at)
        × (((if leb expires_at now then fail {A = Unit {0}} token_expired else return tt) s).1 ≡ s)
  current_lasts now expires_at s h = elim (Bool-cases (leb expires_at now)) [
    | inl y ↦ absurd (ground arith)
    | inr n ↦ (ground arith, rw n refl)
  ]

  -- The two writes of Rotate, from the row it replaces on.
  abbrev write : ℕ → TokenModel → TokenModel → Store table TokenModel
  write now current model = do
    λ s. lift table (table.update (λ r. r.id == current.id) (invalidate now) s)
    λ s. lift table (table.create model s)
    return model

  write_ok :
      (now : ℕ) (current new : TokenModel) (s : table.State) {model : TokenModel} {s' : table.State}
      → write now current new s ≡ (ok model, s')
      → (table.rows s'
          ≡ updated (λ r. r.id == current.id) (invalidate now) (table.rows s) ++ new ∷ [])
        × (model ≡ new)
  write_ok now current new s {model} {s'} e =
      let invalidated = table.update (λ r. r.id == current.id) (invalidate now) s in
      let (n, p, e1) = and_then-ok (lift table invalidated) _ e in
      let created = table.create new invalidated.1 in
      let (u, q, e2) = and_then-ok (lift table created) _ e1 in
      let (rows, _) = table.update_ok _ _ s n (lift-ok invalidated p) in
      let rows' = table.create_ok new invalidated.1 u (lift-ok created q) in
      let at_end : table.rows s' ≡ table.rows created.1 = ap (λ z. table.rows z.1) (sym e2) in
      (at_end ∙ rows' ∙ ap (λ z. z ++ new ∷ []) rows, ok-injective (ap (λ z. z.0) (sym e2)))

  pub replace_ok :
      (ttl : ℕ) (mac old : Text) (id : ℕ) (value : Text) (purge_now now : ℕ) (s : table.State)
      {model : TokenModel} {s' : table.State}
      → replace table ttl mac old id value purge_now now s ≡ (ok model, s')
      → Rotated ttl mac old id value purge_now now (table.rows s) (table.rows s')
        × (model ≡ new_token mac id value (now + ttl))
  unfolding replace purge_expired
  replace_ok ttl mac old id value purge_now now s {s' = s'} e =
      let purged = table.delete (is_expired purge_now) s in
      let (u, p, e1) = and_then-ok (lift table purged) _ e in
      let found = table.first (is_token_of mac old) (λ r. none) purged.1 in
      let (c, f, e2) = and_then-ok (found_current table found) _ e1 in
      let (v, g, e3) =
        and_then-ok
          ((if leb c.expires_at now then fail token_expired else return tt)
            (found_current table found).1)
          _ e2 in
      let (f', t) = found_current-ok found f in
      let (lasts, t') = current_lasts now c.expires_at (found_current table found).1 g in
      let (rows, same) = write_ok now c (new_token mac id value (now + ttl)) _ e3 in
      let (m, is, _) = table.first_found _ _ purged.1 c f' in
      let kept = table.delete_ok _ s u (lift-ok purged p) in
      let kept' = ap table.rows (t' ∙ t) ∙ table.rows-first _ _ purged.1 ∙ kept in
      let (stored, _) = Member-keep _ (table.rows s) c (subst (Member c) kept m) in
      (
        record {
          current = c;
          stored = stored;
          own = ground (arith, text_eq_iff c.mac mac);
          presented = ground (arith, text_eq_iff c.token old);
          lasting = lasts;
          rows =
              rows
              ∙ ap
                  (λ z.
                    updated (λ r. r.id == c.id) (invalidate now) z
                    ++ new_token mac id value (now + ttl) ∷ [])
                  kept';
        },
        same,
      )
