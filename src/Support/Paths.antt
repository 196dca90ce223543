-- ===== src/Support/Paths.antt =====
-- Package path/filepath on Unix: Clean and Join. ToSlash and FromSlash are the identity there.
use goosed.Support.Tests.{◌==◌, if◌then◌else◌}
use goosed.Support.Lists.{All}
use goosed.Support.Text.{Text, lit, text_eq, split}
use mathlib.Core.Path.{◌≡◌, refl, ap, ◌∙◌}
use mathlib.Core.Bool.{Bool, true, false, ◌||◌}
use mathlib.Core.List.{List, [], ◌∷◌, ◌++◌, reverse_aux}
use mathlib.Core.Logic.{◌≢◌}
use native.Mathlib.Omega.{arith}

-- strings.Join(…, "/")
unfoldable pub join_slash : List Text → Text
join_slash [] = []
join_slash (c ∷ []) = c
join_slash (c ∷ d ∷ cs) = c ++ 47 ∷ join_slash (d ∷ cs)

abbrev pub is_rooted : Text → Bool
is_rooted [] = false
is_rooted (c ∷ s) = c == 47

abbrev is_empty : Text → Bool
is_empty [] = true
is_empty (c ∷ s) = false

abbrev drop_last : Bool → List Text → List Text
drop_last rooted [] = if rooted then [] else lit ".." ∷ []
drop_last rooted (d ∷ stack) = if text_eq d (lit "..") then lit ".." ∷ d ∷ stack else stack

-- One component of a path, with those before it, the last one first.
abbrev pub clean_component : Bool → List Text → Text → List Text
clean_component rooted stack c =
    if is_empty c || text_eq c (lit ".")
    then stack
    else if text_eq c (lit "..")
    then drop_last rooted stack
    else c ∷ stack

unfoldable pub clean_components : Bool → List Text → List Text → List Text
unfolding text_eq
clean_components rooted stack [] = reverse_aux stack []
clean_components rooted stack (c ∷ cs) = clean_components rooted (clean_component rooted stack c) cs

abbrev pub rebuilt : Bool → List Text → Text
rebuilt true cs = 47 ∷ join_slash cs
rebuilt false [] = lit "."
rebuilt false (c ∷ cs) = join_slash (c ∷ cs)

-- filepath.Clean
unfoldable pub clean : Text → Text
unfolding clean_components split join_slash
clean path = rebuilt (is_rooted path) (clean_components (is_rooted path) [] (split 47 path))

-- filepath.Join of two elements
unfoldable pub join : Text → Text → Text
unfolding clean
join [] [] = []
join [] (b ∷ t) = clean (b ∷ t)
join (a ∷ s) t = clean ((a ∷ s) ++ 47 ∷ t)

-- A name of a file: not empty, not "." or "..", and without a slash.
abbrev pub IsName : Text → Type 0
IsName c =
    (is_empty c ≡ false)
    × (text_eq c (lit ".") ≡ false)
    × (text_eq c (lit "..") ≡ false)
    × All (λ x. x ≢ 47) c

pub split-append : (c t : Text) → All (λ x. x ≢ 47) c → split 47 (c ++ 47 ∷ t) ≡ c ∷ split 47 t
unfolding split
split-append [] t h = at_slash (split 47 t)
  where
    at_slash :
        (ws : List Text)
        → (elim ws [ [] ↦ [] ∷ [] | w ∷ us ↦ if 47 == 47 then [] ∷ w ∷ us else (47 ∷ w) ∷ us ])
          ≡ [] ∷ ws
    at_slash [] = refl
    at_slash (w ∷ us) = refl
split-append (x ∷ c) t (n, h) = rw (split-append c t h) (ground (arith, n))

split-eq_self : (c : Text) → All (λ x. x ≢ 47) c → split 47 c ≡ c ∷ []
unfolding split
split-eq_self [] h = refl
split-eq_self (x ∷ c) (n, h) = rw (split-eq_self c h) (ground (arith, n))

pub split-join_slash :
    (c : Text) (cs : List Text) → IsName c → All IsName cs → split 47 (join_slash (c ∷ cs)) ≡ c ∷ cs
unfolding join_slash
split-join_slash c [] n h = split-eq_self c n.3
split-join_slash c (d ∷ cs) n (m, h) =
    split-append c (join_slash (d ∷ cs)) n.3 ∙ ap (λ z. c ∷ z) (split-join_slash d cs m h)

pub clean_components-eq_self :
    (rooted : Bool) (stack cs : List Text)
    → All IsName cs
    → clean_components rooted stack cs ≡ reverse_aux stack cs
unfolding clean_components
clean_components-eq_self rooted stack [] h = refl
clean_components-eq_self rooted stack (c ∷ cs) ((e, d, dd, n), h) =
    rw (e, d, dd) (clean_components-eq_self rooted (c ∷ stack) cs h)

join_slash-relative :
    (c : Text) (cs : List Text) → IsName c → is_rooted (join_slash (c ∷ cs)) ≡ false
unfolding join_slash
join_slash-relative [] cs n = absurd (cc (n.0))
join_slash-relative (x ∷ c) [] n = ground (arith, n.3.0)
join_slash-relative (x ∷ c) (d ∷ cs) n = ground (arith, n.3.0)

-- A path of names, with one slash between them, is clean.
pub clean-join_slash :
    (c : Text) (cs : List Text)
    → IsName c
    → All IsName cs
    → clean (join_slash (c ∷ cs)) ≡ join_slash (c ∷ cs)
unfolding clean
clean-join_slash c cs n h =
    rw
      (
        join_slash-relative c cs n,
        split-join_slash c cs n h,
        clean_components-eq_self false [] (c ∷ cs) (n, h),
      )
      refl
