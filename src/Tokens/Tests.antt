-- ===== src/Tokens/Tests.antt =====
-- Runs of the token store over a table in memory, and each theorem at an input.
use goosed.Support.{
  ◌+◌, ◌≤◌, ◌≡◌, ◌≢◌, refl, not, some, [], ◌∷◌, ◌++◌, inl, inr, arith, keep, length, sym, ap, ◌∙◌,
}
use goosed.Support.Text.{Text, lit, text_eq, to_lower, trim_space, trim_left, trim_right, is_space}
use goosed.Support.Results.{ok, err}
use goosed.Gorm.Table.{updated}
use goosed.Gorm.InMemory.{in_memory, best}
use goosed.Gorm.Transaction.{in_memory_transactions}
use goosed.Tokens.Store.{
  TokenModel, Token, to_token, token_not_found, normalize, is_expired, use_up, new_token, issue,
  active, mark_used, rotate, replace, purge_expired, invalidate,
}
use goosed.Tokens.Lookup.{ActiveResult, active_lem, issue_lem}
use goosed.Tokens.Use.{issued_is_active, mark_used_ok, used_not_active}
use goosed.Tokens.Rotation.{rotate_ok, rotate_err}
use goosed.Tokens.Replace.{Rotated}
use goosed.Tokens.Once.{TokensUnique, rotated_once}

program : Unit {0}
unfolding issue active mark_used rotate replace purge_expired normalize to_lower trim_space
    trim_left trim_right is_space text_eq best updated keep
program = tt

abbrev spelled : Text
spelled = lit " AA:01"

abbrev mac : Text
mac = lit "aa:01"

abbrev old : Text
old = lit "t1"

abbrev first : TokenModel
first = new_token mac 1 old 150

abbrev second : TokenModel
second = new_token mac 2 (lit "t2") 170

abbrev stale : TokenModel
stale = new_token mac 9 (lit "t9") 40

issues : issue in_memory 100 spelled 1 old 50 50 (stale ∷ []) ≡ (ok (to_token first), first ∷ [])
unfolding program
issues = refl

finds : active in_memory mac 60 60 (first ∷ []) ≡ (ok (some (to_token first)), first ∷ [])
unfolding program
finds = refl

marks : mark_used in_memory old (first ∷ []) ≡ (ok tt, use_up first ∷ [])
unfolding program
marks = refl

misses : mark_used in_memory (lit "t7") (first ∷ []) ≡ (err token_not_found, first ∷ [])
unfolding program
misses = refl

prefers :
    active in_memory mac 60 60 (use_up first ∷ second ∷ [])
    ≡ (ok (some (to_token second)), use_up first ∷ second ∷ [])
unfolding program
prefers = refl

marks_first : mark_used in_memory old (first ∷ second ∷ []) ≡ (ok tt, use_up first ∷ second ∷ [])
unfolding program
marks_first = refl

rotates :
    rotate in_memory in_memory_transactions 100 mac old 2 (lit "t2") 70 70 (first ∷ [])
    ≡ (ok (to_token second), invalidate 70 first ∷ second ∷ [])
unfolding program
rotates = refl

refuses :
    rotate in_memory in_memory_transactions 100 mac
      (lit "t7")
      2
      (lit "t2")
      70
      70
      (stale ∷ first ∷ [])
    ≡ (err token_not_found, stale ∷ first ∷ [])
unfolding program
refuses = refl

same_address : normalize mac ≡ normalize spelled
unfolding program
same_address = refl

fresh_value : lit "t2" ≢ trim_space old
unfolding program
fresh_value h = absurd (ground arith)

unique : TokensUnique (first ∷ [])
unique a b (inl p) (inr x) t = elim x [ ]
unique a b (inr x) _ t = elim x [ ]
unique a b (inl p) (inl q) t = ap (λ (z : TokenModel). z.id) (sym p ∙ q)

issue_lem_example :
    (normalize spelled ≢ [])
    × (to_token first ≡ to_token (new_token (normalize spelled) 1 old (50 + 100)))
    × (first ∷ []
        ≡ keep (λ r. not (is_expired 50 r)) (stale ∷ [])
          ++ new_token (normalize spelled) 1 old (50 + 100) ∷ [])
issue_lem_example = issue_lem in_memory 100 spelled 1 old 50 50 (stale ∷ []) issues

active_lem_example :
    ActiveResult in_memory (normalize mac) 60 (use_up first ∷ second ∷ []) (some (to_token second))
    × (use_up first ∷ second ∷ [] ≡ keep (λ r. not (is_expired 60 r)) (use_up first ∷ second ∷ []))
active_lem_example = active_lem in_memory mac 60 60 (use_up first ∷ second ∷ []) prefers

issued_is_active_example : (t : Token) × (some (to_token first) ≡ some t) × (150 ≤ t.expires_at)
issued_is_active_example =
    issued_is_active in_memory 100 spelled mac 1 old 50 50 60 60 (stale ∷ []) issues same_address
      (omega arith) (omega arith) finds

mark_used_ok_example :
    (use_up first ∷ [] ≡ updated (λ r. text_eq r.token (trim_space old)) use_up (first ∷ []))
    × (length (keep (λ (r : TokenModel). text_eq r.token (trim_space old)) (first ∷ [])) ≢ 0)
mark_used_ok_example = mark_used_ok in_memory old (first ∷ []) marks

used_not_active_example : lit "t2" ≢ trim_space old
used_not_active_example =
    used_not_active in_memory old mac 60 60 (first ∷ second ∷ []) marks_first prefers

rotate_ok_example :
    Rotated 100
      (normalize mac)
      (trim_space old)
      2
      (lit "t2")
      70
      70
      (first ∷ [])
      (invalidate 70 first ∷ second ∷ [])
    × (to_token second ≡ to_token (new_token (normalize mac) 2 (lit "t2") (70 + 100)))
rotate_ok_example =
    rotate_ok in_memory in_memory_transactions 100 mac old 2 (lit "t2") 70 70 (first ∷ []) rotates

rotate_err_example : stale ∷ first ∷ [] ≡ stale ∷ first ∷ []
rotate_err_example =
    rotate_err in_memory in_memory_transactions 100 mac (lit "t7") 2 (lit "t2") 70 70
      (stale ∷ first ∷ []) refuses

rotated_once_example :
    rotate in_memory in_memory_transactions 100 mac old 3
      (lit "t3")
      80
      80
      (invalidate 70 first ∷ second ∷ [])
    ≢ (ok (to_token second), [])
rotated_once_example =
    rotated_once in_memory in_memory_transactions 100 mac mac old 2 3 (lit "t2") (lit "t3") 70 70 80
      80 (first ∷ []) unique fresh_value (omega arith) rotates
