-- ===== src/Support/Results.antt =====
-- Go's error results, and methods that change an object and may return an error. What was
-- written before an error stays written, so the state comes back beside the error too.
use mathlib.Core.Path.{◌≡◌, refl, ap}
use mathlib.Core.Option.{Option, none, some}

pub data Result {ℓ} (E A : Type ℓ) : Type ℓ where
  ok : A → Result E A
  err : E → Result E A

pub ok_ne_err {ℓ} : {E A B : Type ℓ} {a : A} {e : E} → ok a ≡ err e → B
ok_ne_err h = absurd (cc)

pub ok-injective {ℓ} : {E A : Type ℓ} {a b : A} → ◌≡◌ {A = Result E A} (ok a) (ok b) → a ≡ b
ok-injective h = cc

-- A method over an object of type `S`.
abbrev pub Method : Type 0 → Type 0 → Type 0 → Type 0
Method S E A = S → Result E A × S

module _ {S E : Type 0} where
  abbrev pub return : {A : Type 0} → A → Method S E A
  return a s = (ok a, s)

  abbrev pub fail : {A : Type 0} → E → Method S E A
  fail e s = (err e, s)

  abbrev pub and_then : {A B : Type 0} → Result E A × S → (A → Method S E B) → Result E B × S
  and_then (ok a, s) f = f a s
  and_then (err e, s) f = (err e, s)

  infixl 5 ◌>>=◌ ◌>>◌
  abbrev pub ◌>>=◌ : {A B : Type 0} → Method S E A → (A → Method S E B) → Method S E B
  ◌>>=◌ m f s = and_then (m s) f

  abbrev pub ◌>>◌ : {A B : Type 0} → Method S E A → Method S E B → Method S E B
  m >> k = m >>= λ _. k

  -- A result as a method that changes nothing.
  abbrev pub lift : {A : Type 0} → Result E A → Method S E A
  lift (ok a) = return a
  lift (err e) = fail e

  -- A chain that succeeds: the first method did, and the second did after it.
  pub and_then-ok :
      {A B : Type 0} (r : Result E A × S) (f : A → Method S E B) {b : B} {s' : S}
      → and_then r f ≡ (ok b, s')
      → (a : A) × (r.0 ≡ ok a) × (f a r.1 ≡ (ok b, s'))
  and_then-ok (ok a, s) f e = (a, refl, e)
  and_then-ok (err x, s) f e = absurd (cc)

-- The value that is there, or an error.
abbrev pub or_else : {E A : Type 0} → E → Option A → Result E A
or_else e none = err e
or_else e (some a) = ok a

pub or_else-ok : {E A : Type 0} (e : E) (o : Option A) {a : A} → or_else e o ≡ ok a → o ≡ some a
or_else-ok e none h = absurd (cc)
or_else-ok e (some b) h = ap some (ok-injective h)
