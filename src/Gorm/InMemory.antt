-- ===== src/Gorm/InMemory.antt =====
-- A table that never fails, for tests: it meets the interface.
use goosed.Support.{
  ℕ, ◌≡◌, refl, sym, Bool, true, false, not, Option, none, some, List, [], ◌∷◌, ◌++◌, inl, inr,
  arith, keep, length, if◌then◌else◌, All, Bool-cases, All-map,
}
use goosed.Support.Results.{Result, ok, err, ok_ne_err, ok-injective}
use goosed.Gorm.Table.{DbError, record_not_found, desc_le, Member, updated, Table}

desc_le_refl : (a : Option ℕ) → desc_le a a ≡ true
desc_le_refl none = refl
desc_le_refl (some a) = ground arith

desc_le_trans : (a b c : Option ℕ) → desc_le a b ≡ true → desc_le b c ≡ true → desc_le a c ≡ true
desc_le_trans a b none h k = refl
desc_le_trans none none (some c) h k = k
desc_le_trans (some a) none (some c) h k = cc
desc_le_trans none (some b) (some c) h k = cc
desc_le_trans (some a) (some b) (some c) h k = ground arith

desc_le_total : (a b : Option ℕ) → desc_le a b ≡ false → desc_le b a ≡ true
desc_le_total a none h = cc
desc_le_total none (some b) h = refl
desc_le_total (some a) (some b) h = ground arith

module _ {Row : Type 0} where
  abbrev better : (Row → Option ℕ) → Row → Result DbError Row → Result DbError Row
  better key x (err e) = ok x
  better key x (ok y) = if desc_le (key y) (key x) then ok x else ok y

  -- the first of the greatest rows
  unfoldable pub best : (Row → Bool) → (Row → Option ℕ) → List Row → Result DbError Row
  best p key [] = err record_not_found
  best p key (x ∷ xs) = let rest = best p key xs in if p x then better key x rest else rest

  abbrev pub Best : (Row → Bool) → (Row → Option ℕ) → List Row → Result DbError Row → Type 0
  Best p key xs (err e) = All (λ x. p x ≡ false) xs
  Best p key xs (ok r) =
      Member r xs × (p r ≡ true) × All (λ x. p x ≡ true → desc_le (key x) (key r) ≡ true) xs

  better-Best :
      (p : Row → Bool) (key : Row → Option ℕ) (x : Row) (xs : List Row) (rest : Result DbError Row)
      → p x ≡ true
      → Best p key xs rest
      → Best p key (x ∷ xs) (better key x rest)
  better-Best p key x xs (err e) h b =
      (inl refl, h, ((λ _. desc_le_refl (key x)), All-map _ _ (λ y n t. cc) xs b))
  better-Best p key x xs (ok y) h b = elim (Bool-cases (desc_le (key y) (key x))) [
    | inl l ↦ rw l (
      inl refl,
      h,
      (
        (λ _. desc_le_refl (key x)),
        All-map _ _ (λ z n t. desc_le_trans (key z) (key y) (key x) (n t) l) xs b.2,
      ),
    )
    | inr g ↦ rw g (inr b.0, b.1, ((λ _. desc_le_total (key y) (key x) g), b.2))
  ]

  best-Best :
      (p : Row → Bool) (key : Row → Option ℕ) (xs : List Row) → Best p key xs (best p key xs)
  unfolding best
  best-Best p key [] = tt
  best-Best p key (x ∷ xs) = elim (Bool-cases (p x)) [
    | inl h ↦ rw h (better-Best p key x xs (best p key xs) h (best-Best p key xs))
    | inr n ↦ rw n (skip (best p key xs) n (best-Best p key xs))
  ]
    where
      skip : (r : Result DbError Row) → p x ≡ false → Best p key xs r → Best p key (x ∷ xs) r
      skip (err e) n b = (n, b)
      skip (ok y) n b = (inr b.0, b.1, ((λ t. cc), b.2))

  pub first_found :
      (p : Row → Bool) (key : Row → Option ℕ) (rows : List Row) (r : Row)
      → best p key rows ≡ ok r
      → Best p key rows (ok r)
  first_found p key rows r h = rw h at (best-Best p key rows)

  pub first_missing :
      (p : Row → Bool) (key : Row → Option ℕ) (rows : List Row)
      → best p key rows ≡ err record_not_found
      → Best p key rows (err record_not_found)
  first_missing p key rows h = rw h at (best-Best p key rows)

  abbrev pub in_memory : Table Row
  in_memory = record {
    State = List Row;
    rows = λ s. s;
    first = λ p key s. (best p key s, s);
    create = λ r s. (ok tt, s ++ r ∷ []);
    update = λ p f s. (ok (length (keep p s)), updated p f s);
    delete = λ p s. (ok tt, keep (λ r. not (p r)) s);
    rows-first = λ p key s. refl;
    first_found = first_found;
    first_missing = first_missing;
    create_ok = λ r s u h. refl;
    create_err = λ r s e h. ok_ne_err h;
    update_ok = λ p f s n h. (refl, sym (ok-injective h));
    update_err = λ p f s e h. ok_ne_err h;
    delete_ok = λ p s u h. refl;
    delete_err = λ p s e h. ok_ne_err h;
  }
