-- ===== src/Gorm/Rows.antt =====
-- The rows of a table after its statements.
use goosed.Support.{
  ◌≡◌, refl, sym, Bool, true, ◌⊎◌, inl, inr, List, [], ◌∷◌, ◌++◌, keep, All, Bool-cases,
  if◌then◌else◌, subst,
}
use goosed.Gorm.Table.{Member, updated}

module _ {Row : Type 0} where
  pub All-Member : (P : Row → Type 0) (xs : List Row) (a : Row) → All P xs → Member a xs → P a
  All-Member P [] a h m = elim m [ ]
  All-Member P (x ∷ xs) a h (inl e) = subst P e h.0
  All-Member P (x ∷ xs) a h (inr m) = All-Member P xs a h.1 m

  pub Member-append : (xs ys : List Row) (a : Row) → Member a (xs ++ ys) → Member a xs ⊎ Member a ys
  Member-append [] ys a m = inr m
  Member-append (x ∷ xs) ys a (inl e) = inl (inl e)
  Member-append (x ∷ xs) ys a (inr m) = elim (Member-append xs ys a m) [
    | inl l ↦ inl (inr l)
    | inr r ↦ inr r
  ]

  pub Member-append_last : (xs : List Row) (a : Row) → Member a (xs ++ a ∷ [])
  Member-append_last [] a = inl refl
  Member-append_last (x ∷ xs) a = inr (Member-append_last xs a)

  pub Member-keep :
      (p : Row → Bool) (xs : List Row) (a : Row) → Member a (keep p xs) → Member a xs × (p a ≡ true)
  unfolding keep
  Member-keep p [] a m = elim m [ ]
  Member-keep p (x ∷ xs) a m = elim (Bool-cases (p x)) [
    | inl y ↦ kept (λ k. Member-keep p xs a k) y (rw y at m)
    | inr n ↦ let r = Member-keep p xs a (rw n at m) in (inr r.0, r.1)
  ]
    where
      kept :
          (Member a (keep p xs) → Member a xs × (p a ≡ true))
          → p x ≡ true
          → Member a (x ∷ keep p xs)
          → Member a (x ∷ xs) × (p a ≡ true)
      kept ih y (inl e) = (inl e, subst (λ z. p z ≡ true) e y)
      kept ih y (inr k) = (inr (ih k).0, (ih k).1)

  pub Member-keep_of :
      (p : Row → Bool) (xs : List Row) (a : Row) → Member a xs → p a ≡ true → Member a (keep p xs)
  unfolding keep
  Member-keep_of p [] a m h = elim m [ ]
  Member-keep_of p (x ∷ xs) a (inl e) h =
      let y : p x ≡ true = subst (λ z. p z ≡ true) (sym e) h in rw y (inl e)
  Member-keep_of p (x ∷ xs) a (inr m) h = elim (Bool-cases (p x)) [
    | inl y ↦ rw y (inr (Member-keep_of p xs a m h))
    | inr n ↦ rw n (Member-keep_of p xs a m h)
  ]

  pub Member-updated :
      (p : Row → Bool) (f : Row → Row) (xs : List Row) (a : Row)
      → Member a (updated p f xs)
      → (x : Row) × Member x xs × ((if p x then f x else x) ≡ a)
  unfolding updated
  Member-updated p f [] a m = elim m [ ]
  Member-updated p f (x ∷ xs) a (inl e) = (x, inl refl, e)
  Member-updated p f (x ∷ xs) a (inr m) = let (y, k, e) = Member-updated p f xs a m in (y, inr k, e)
