-- ===== src/Tokens/Use.antt =====
-- services/api/token_store.go: what Active returns after Issue and after MarkUsed.
use goosed.Support.{
  ℕ, ◌+◌, ◌≤◌, ◌<◌, ◌≡◌, ◌≢◌, refl, ap, subst, Bool, true, false, not, Option, none, some, List, [],
  ◌∷◌, inl, inr, arith, Bool-cases, keep, ◌∙◌, length,
}
use goosed.Support.Text.{Text, text_eq, text_eq_iff, trim_space}
use goosed.Support.Results.{Result, ok, err, and_then}
use goosed.Gorm.Table.{DbError, Table, Member, updated}
use goosed.Gorm.Rows.{All-Member, Member-append_last, Member-keep, Member-keep_of, Member-updated}
use goosed.Tokens.Store.{
  TokenModel, Token, TokenError, is_empty, normalize, is_expired, is_usable, use_up, new_token,
  issue, active, mark_used, some_affected, lift,
}
use goosed.Tokens.Lookup.{ActiveResult, active_lem, issue_lem}

new_token_usable :
    (mac : Text) (id : ℕ) (value : Text) (expires_at now : ℕ)
    → now < expires_at
    → is_usable mac now (new_token mac id value expires_at) ≡ true
new_token_usable mac id value expires_at now h = ground (arith, text_eq_iff mac mac)

updated-eq_self :
    (p : TokenModel → Bool) (f : TokenModel → TokenModel) (rows : List TokenModel)
    → length (keep p rows) ≡ 0
    → updated p f rows ≡ rows
unfolding keep updated
updated-eq_self p f [] h = refl
updated-eq_self p f (r ∷ rows) h = elim (Bool-cases (p r)) [
  | inl y ↦ absurd (ground arith)
  | inr n ↦ rw (n, updated-eq_self p f rows (ground arith))
]

module _ (table : Table TokenModel) where
  active_has :
      (mac : Text) (now : ℕ) (rows : List TokenModel) (r : TokenModel) (o : Option Token)
      → Member r rows
      → is_usable mac now r ≡ true
      → ActiveResult table mac now rows o
      → (t : Token) × (o ≡ some t) × (r.expires_at ≤ t.expires_at)
  active_has mac now rows r none m u a =
      absurd (let f = All-Member (λ x. is_usable mac now x ≡ false) rows r a m in cc)
  active_has mac now rows r (some t) m u a = (
    t,
    refl,
    All-Member (λ x. is_usable mac now x ≡ true → x.expires_at ≤ t.expires_at) rows r a.latest m u,
  )

  -- After a token was issued, Active for the same address, in any spelling, finds a token as long
  -- as the issued one lasts, and one that lasts at least as long.
  pub issued_is_active :
      (ttl : ℕ) (raw raw' : Text) (id : ℕ) (value : Text) (purge_now now purge_now' now' : ℕ)
      (s : table.State) {token : Token} {o : Option Token} {s' s'' : table.State}
      → issue table ttl raw id value purge_now now s ≡ (ok token, s')
      → normalize raw' ≡ normalize raw
      → purge_now' < now + ttl
      → now' < now + ttl
      → active table raw' purge_now' now' s' ≡ (ok o, s'')
      → (t : Token) × (o ≡ some t) × (token.expires_at ≤ t.expires_at)
  issued_is_active ttl raw raw' id value purge_now now purge_now' now' s {o = o} {s'} {s''} e m p n
        a =
      let model = new_token (normalize raw) id value (now + ttl) in
      let (_, t, rows) = issue_lem table ttl raw id value purge_now now s e in
      let (result, kept) = active_lem table raw' purge_now' now' s' a in
      let stored : Member model (table.rows s') = rw rows (Member-append_last _ model) in
      let stays : Member model (table.rows s'') = rw kept (
        Member-keep_of (λ r. not (is_expired purge_now' r)) (table.rows s') model stored
          (ground arith)) in
      rw t (
        active_has (normalize raw) now' (table.rows s'') model o stays
          (new_token_usable (normalize raw) id value (now + ttl) now' n)
          (subst (λ z. ActiveResult table z now' (table.rows s'') o) m result))

  used_rows :
      (value : Text) (s : table.State) {s' : table.State} (r : Result DbError ℕ)
      → (table.update (λ r. text_eq r.token value) use_up s).0 ≡ r
      → (and_then
          (lift table (r, (table.update (λ r. text_eq r.token value) use_up s).1))
          (some_affected table))
        ≡ (ok tt, s')
      → (table.rows s' ≡ updated (λ r. text_eq r.token value) use_up (table.rows s))
        × (length (keep (λ r. text_eq r.token value) (table.rows s)) ≢ 0)
  used_rows value s (err x) f e = absurd (cc)
  used_rows value s (ok n) f e =
      let (rows, count) = table.update_ok (λ r. text_eq r.token value) use_up s n f in
      (ground (arith, rows), λ z. ground (arith, count))

  unused_rows :
      (value : Text) (s : table.State) {x : TokenError} {s' : table.State} (r : Result DbError ℕ)
      → (table.update (λ r. text_eq r.token value) use_up s).0 ≡ r
      → (and_then
          (lift table (r, (table.update (λ r. text_eq r.token value) use_up s).1))
          (some_affected table))
        ≡ (err x, s')
      → table.rows s' ≡ table.rows s
  unused_rows value s (err x) f e =
      let rows = table.update_err (λ r. text_eq r.token value) use_up s x f in ground (arith, rows)
  unused_rows value s {s' = s'} (ok n) f e =
      let (rows, count) = table.update_ok (λ r. text_eq r.token value) use_up s n f in
      let nothing : length (keep (λ r. text_eq r.token value) (table.rows s)) ≡ 0 =
        ground (arith, count) in
      let q : table.rows s' ≡ updated (λ r. text_eq r.token value) use_up (table.rows s) =
        ground (arith, rows) in
      q ∙ updated-eq_self _ _ (table.rows s) nothing

  -- A MarkUsed that succeeds, of a token with or without space around it, marks every row of the
  -- token used and changes no other row, and there is such a row.
  pub mark_used_ok :
      (raw : Text) (s : table.State) {s' : table.State}
      → mark_used table raw s ≡ (ok tt, s')
      → (table.rows s' ≡ updated (λ r. text_eq r.token (trim_space raw)) use_up (table.rows s))
        × (length (keep (λ r. text_eq r.token (trim_space raw)) (table.rows s)) ≢ 0)
  unfolding mark_used
  mark_used_ok raw s e = elim (Bool-cases (is_empty (trim_space raw))) [
    | inl y ↦ absurd (ground arith)
    | inr n ↦ used_rows (trim_space raw) s _ refl (rw n at e)
  ]

  -- A MarkUsed that fails, also because there is no such token, changes no row.
  mark_used_err :
      (raw : Text) (s : table.State) {x : TokenError} {s' : table.State}
      → mark_used table raw s ≡ (err x, s')
      → table.rows s' ≡ table.rows s
  unfolding mark_used
  mark_used_err raw s e = elim (Bool-cases (is_empty (trim_space raw))) [
    | inl y ↦ ground arith
    | inr n ↦ unused_rows (trim_space raw) s _ refl (rw n at e)
  ]

  used_row :
      (value : Text) (rows : List TokenModel) (r : TokenModel)
      → Member r (updated (λ x. text_eq x.token value) use_up rows)
      → r.used ≡ false
      → r.token ≢ value
  used_row value rows r m u q =
      let (x, _, e) = Member-updated (λ x. text_eq x.token value) use_up rows r m in
      elim (Bool-cases (text_eq x.token value)) [
        | inl y ↦ let p : use_up x ≡ r = rw y at e in cc (u, ap (λ (z : TokenModel). z.used) p)
        | inr n ↦
            let p : x ≡ r = rw n at e in
            let t = (text_eq_iff x.token value).1 (ap (λ (z : TokenModel). z.token) p ∙ q) in cc
      ]

  -- A token that MarkUsed has marked used is not the one that the next Active returns, for any
  -- address and at any time.
  pub used_not_active :
      (raw raw' : Text) (purge_now now : ℕ) (s : table.State) {t : Token} {s' s'' : table.State}
      → mark_used table raw s ≡ (ok tt, s')
      → active table raw' purge_now now s' ≡ (ok (some t), s'')
      → t.value ≢ trim_space raw
  used_not_active raw raw' purge_now now s {t} {s'} {s''} e a q =
      let (rows, _) = mark_used_ok raw s e in
      let (latest, kept) = active_lem table raw' purge_now now s' a in
      let m : Member latest.row (table.rows s') =
        (Member-keep (λ r. not (is_expired purge_now r)) (table.rows s') latest.row
          (subst (Member latest.row) kept latest.stored)).0 in
      used_row (trim_space raw) (table.rows s) latest.row (subst (Member latest.row) rows m)
        (ap (λ (z : Token). z.used) latest.same ∙ latest.unused)
        (ap (λ (z : Token). z.value) latest.same ∙ q)
