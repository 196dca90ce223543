-- ===== src/Gorm/Flaky.antt =====
-- A table in memory whose next Create fails if it is told so, for tests of what follows a failure.
use goosed.Support.{◌≡◌, refl, sym, Bool, true, false, not, List, [], ◌∷◌, ◌++◌, keep, length}
use goosed.Support.Results.{Result, ok, err, ok_ne_err, ok-injective}
use goosed.Gorm.Table.{DbError, failure, updated, Table}
use goosed.Gorm.InMemory.{best, first_found, first_missing}

pub record Flaky (Row : Type 0) : Type 0 where
  pub kept : List Row
  pub failing : Bool

module _ {Row : Type 0} where
  abbrev pub flaky_create : Bool → Row → List Row → Result DbError (Unit {0}) × Flaky Row
  flaky_create true r rows = (err (failure 5), record { kept = rows; failing = false })
  flaky_create false r rows = (ok tt, record { kept = rows ++ r ∷ []; failing = false })

  pub flaky_ok :
      (b : Bool) (r : Row) (rows : List Row) (u : Unit {0})
      → (flaky_create b r rows).0 ≡ ok u
      → (flaky_create b r rows).1.kept ≡ rows ++ r ∷ []
  flaky_ok true r rows u h = absurd (cc)
  flaky_ok false r rows u h = refl

  pub flaky_err :
      (b : Bool) (r : Row) (rows : List Row) (x : DbError)
      → (flaky_create b r rows).0 ≡ err x
      → (flaky_create b r rows).1.kept ≡ rows
  flaky_err true r rows x h = refl
  flaky_err false r rows x h = ok_ne_err h

  abbrev pub flaky : Table Row
  flaky = record {
    State = Flaky Row;
    rows = λ s. s.kept;
    first = λ p key s. (best p key s.kept, s);
    create = λ r s. flaky_create s.failing r s.kept;
    update = λ p f s. (ok (length (keep p s.kept)), record s { kept = updated p f s.kept });
    delete = λ p s. (ok tt, record s { kept = keep (λ r. not (p r)) s.kept });
    rows-first = λ p key s. refl;
    first_found = λ p key s. first_found p key s.kept;
    first_missing = λ p key s. first_missing p key s.kept;
    create_ok = λ r s. flaky_ok s.failing r s.kept;
    create_err = λ r s. flaky_err s.failing r s.kept;
    update_ok = λ p f s n h. (refl, sym (ok-injective h));
    update_err = λ p f s x h. ok_ne_err h;
    delete_ok = λ p s u h. refl;
    delete_err = λ p s x h. ok_ne_err h;
  }
