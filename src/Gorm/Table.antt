-- ===== src/Gorm/Table.antt =====
-- A table behind gorm. `State` is the database as the session sees it.
use goosed.Support.{
  ℕ, ◌≡◌, Bool, true, false, not, Option, none, some, List, [], ◌∷◌, ◌++◌, ◌⊎◌, leb, keep, length,
  if◌then◌else◌, All,
}
use goosed.Support.Results.{Result, ok, err}

-- gorm.ErrRecordNotFound, and every other error
pub data DbError : Type 0 where
  record_not_found : DbError
  failure : ℕ → DbError

-- `a` comes no earlier than `b` in an order DESC, where PostgreSQL puts NULL first.
abbrev pub desc_le : Option ℕ → Option ℕ → Bool
desc_le a none = true
desc_le none (some b) = false
desc_le (some a) (some b) = leb a b

abbrev pub Member : {A : Type 0} → A → List A → Type 0
Member a [] = ⊥
Member a (x ∷ xs) = (x ≡ a) ⊎ Member a xs

-- UPDATE … SET … WHERE, on the rows
unfoldable pub updated : {Row : Type 0} → (Row → Bool) → (Row → Row) → List Row → List Row
updated p f [] = []
updated p f (r ∷ rows) = (if p r then f r else r) ∷ updated p f rows

pub record Table (Row : Type 0) : Type 1 where
  pub State : Type 0
  pub rows : State → List Row
  -- Where(p).Order(key DESC).First
  pub first : (Row → Bool) → (Row → Option ℕ) → State → Result DbError Row × State
  -- Create
  pub create : Row → State → Result DbError (Unit {0}) × State
  -- Where(p).Updates(f), with RowsAffected
  pub update : (Row → Bool) → (Row → Row) → State → Result DbError ℕ × State
  -- Where(p).Delete
  pub delete : (Row → Bool) → State → Result DbError (Unit {0}) × State
  pub rows-first :
      (p : Row → Bool) (key : Row → Option ℕ) (s : State) → rows (first p key s).1 ≡ rows s
  pub first_found :
      (p : Row → Bool) (key : Row → Option ℕ) (s : State) (r : Row)
      → (first p key s).0 ≡ ok r
      → Member r (rows s)
        × (p r ≡ true)
        × All (λ x. p x ≡ true → desc_le (key x) (key r) ≡ true) (rows s)
  pub first_missing :
      (p : Row → Bool) (key : Row → Option ℕ) (s : State)
      → (first p key s).0 ≡ err record_not_found
      → All (λ x. p x ≡ false) (rows s)
  pub create_ok :
      (r : Row) (s : State) (u : Unit {0})
      → (create r s).0 ≡ ok u
      → rows (create r s).1 ≡ rows s ++ r ∷ []
  pub create_err :
      (r : Row) (s : State) (e : DbError) → (create r s).0 ≡ err e → rows (create r s).1 ≡ rows s
  pub update_ok :
      (p : Row → Bool) (f : Row → Row) (s : State) (n : ℕ)
      → (update p f s).0 ≡ ok n
      → (rows (update p f s).1 ≡ updated p f (rows s)) × (n ≡ length (keep p (rows s)))
  pub update_err :
      (p : Row → Bool) (f : Row → Row) (s : State) (e : DbError)
      → (update p f s).0 ≡ err e
      → rows (update p f s).1 ≡ rows s
  pub delete_ok :
      (p : Row → Bool) (s : State) (u : Unit {0})
      → (delete p s).0 ≡ ok u
      → rows (delete p s).1 ≡ keep (λ r. not (p r)) (rows s)
  pub delete_err :
      (p : Row → Bool) (s : State) (e : DbError)
      → (delete p s).0 ≡ err e
      → rows (delete p s).1 ≡ rows s
