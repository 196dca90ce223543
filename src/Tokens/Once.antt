-- ===== src/Tokens/Once.antt =====
-- services/api/token_store.go: a token is rotated once.
use goosed.Support.{
  ℕ, ◌+◌, ◌≤◌, ◌≡◌, ◌≢◌, sym, ap, subst, Bool, not, List, [], ◌∷◌, ◌++◌, ◌==◌, inl, inr, arith,
  Bool-cases, keep, ◌∙◌,
}
use goosed.Support.Text.{Text, trim_space}
use goosed.Support.Results.{ok}
use goosed.Gorm.Table.{Table, Member, updated}
use goosed.Gorm.Transaction.{Transactions}
use goosed.Gorm.Rows.{Member-append, Member-keep, Member-updated}
use goosed.Tokens.Store.{TokenModel, Token, normalize, is_expired, invalidate, new_token, rotate}
use goosed.Tokens.Rotation.{rotate_ok}

-- A token stands in one row.
abbrev pub TokensUnique : List TokenModel → Type 0
TokensUnique rows =
    (a b : TokenModel) → Member a rows → Member b rows → a.token ≡ b.token → a.id ≡ b.id

module _ (table : Table TokenModel) (tx : Transactions table) where
  spent_row :
      (now : ℕ) (current : TokenModel) (rows : List TokenModel) (p : TokenModel → Bool)
      (r : TokenModel)
      → TokensUnique rows
      → Member current rows
      → Member r (updated (λ x. x.id == current.id) (invalidate now) (keep p rows))
      → r.token ≡ current.token
      → r.expires_at ≡ now
  spent_row now current rows p r unique c m t =
      let (x, k, e) = Member-updated (λ x. x.id == current.id) (invalidate now) (keep p rows) r m in
      let (k', _) = Member-keep p rows x k in
      elim (Bool-cases (x.id == current.id)) [
        | inl y ↦ sym (ap (λ (z : TokenModel). z.expires_at) (rw y at e))
        | inr n ↦
            let q : x ≡ r = rw n at e in
            let i = unique x current k' c (ap (λ (z : TokenModel). z.token) q ∙ t) in
            absurd (ground arith)
      ]

  -- Where a token stands in one row and the new value is another, a token that a Rotate has replaced
  -- is not rotated again: the next Rotate that presents it, at no earlier time, does not succeed, for
  -- any address.
  pub rotated_once :
      (ttl : ℕ) (raw raw' raw_old : Text) (id id' : ℕ) (value value' : Text)
      (purge_now now purge_now' now' : ℕ) (s : table.State) {t t' : Token} {s' s'' : table.State}
      → TokensUnique (table.rows s)
      → value ≢ trim_space raw_old
      → now ≤ now'
      → rotate table tx ttl raw raw_old id value purge_now now s ≡ (ok t, s')
      → rotate table tx ttl raw' raw_old id' value' purge_now' now' s' ≢ (ok t', s'')
  rotated_once ttl raw raw' raw_old id id' value value' purge_now now purge_now' now' s {s' = s'}
        unique v n e e' =
      let (one, _) = rotate_ok table tx ttl raw raw_old id value purge_now now s e in
      let (two, _) = rotate_ok table tx ttl raw' raw_old id' value' purge_now' now' s' e' in
      let lasts = two.lasting in
      let kept = keep (λ r. not (is_expired purge_now r)) (table.rows s) in
      let old = updated (λ r. r.id == one.current.id) (invalidate now) kept in
      let added = new_token (normalize raw) id value (now + ttl) ∷ [] in
      let m : Member two.current (old ++ added) = subst (Member two.current) one.rows two.stored in
      elim (Member-append old added two.current m) [
        | inl m ↦
            let x =
              spent_row now one.current (table.rows s) _ two.current unique one.stored m
                (two.presented ∙ sym one.presented) in
            absurd (omega arith)
        | inr (inl q) ↦ v (ap (λ (z : TokenModel). z.token) q ∙ two.presented)
        | inr (inr f) ↦ absurd f
      ]
