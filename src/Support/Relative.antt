-- ===== src/Support/Relative.antt =====
-- Package path/filepath: what Clean and Join make of paths that are names with one slash between them.
use goosed.Support.Tests.{◌==◌}
use goosed.Support.Lists.{All, any}
use goosed.Support.Text.{Text, has_prefix}
use goosed.Support.Paths.{
  join_slash, clean_components, clean, join, IsName, split-append, split-join_slash,
  clean_components-eq_self, clean-join_slash,
}
use mathlib.Core.Path.{◌≡◌, refl, ap, sym, ◌∙◌}
use mathlib.Core.Bool.{true, false}
use mathlib.Core.Logic.{◌≢◌}
use mathlib.Core.List.{List, [], ◌∷◌, ◌++◌, append_assoc}
use native.Mathlib.Omega.{arith}

-- A relative path that is clean.
pub record IsPath (p : Text) : Type 0 where
  pub first : Text
  pub others : List Text
  pub first_name : IsName first
  pub other_names : All IsName others
  pub spelled : p ≡ join_slash (first ∷ others)

-- An absolute path that is clean, and not the root.
pub record IsAbsolute (p : Text) : Type 0 where
  pub below : Text
  pub below_path : IsPath below
  pub spelled : p ≡ 47 ∷ below

join_slash-append :
    (c : Text) (cs : List Text) (d : Text) (ds : List Text)
    → join_slash (c ∷ cs) ++ 47 ∷ join_slash (d ∷ ds) ≡ join_slash (c ∷ (cs ++ d ∷ ds))
unfolding join_slash
join_slash-append c [] d ds = refl
join_slash-append c (e ∷ cs) d ds =
    append_assoc c (47 ∷ join_slash (e ∷ cs)) (47 ∷ join_slash (d ∷ ds))
    ∙ ap (λ z. c ++ 47 ∷ z) (join_slash-append e cs d ds)

All-append {ℓ κ} :
    {A : Type ℓ} (P : A → Type κ) (xs ys : List A) → All P xs → All P ys → All P (xs ++ ys)
All-append P [] ys h g = g
All-append P (x ∷ xs) ys (p, h) g = (p, All-append P xs ys h g)

pub no_slash : (s : Text) → any (λ c. c == 47) s ≡ false → All (λ c. c ≢ 47) s
unfolding any
no_slash [] h = tt
no_slash (c ∷ s) h = ((λ e. ground (arith, e)), no_slash s (ground arith))

pub append-IsPath : (a b : Text) → IsPath a → IsPath b → IsPath (a ++ 47 ∷ b)
append-IsPath a b p q = record {
  first = p.first;
  others = p.others ++ q.first ∷ q.others;
  first_name = p.first_name;
  other_names =
      All-append IsName p.others (q.first ∷ q.others) p.other_names (q.first_name, q.other_names);
  spelled = rw (p.spelled, q.spelled) (join_slash-append p.first p.others q.first q.others);
}

pub clean-IsPath : (a : Text) → IsPath a → clean a ≡ a
clean-IsPath a p = rw p.spelled (clean-join_slash p.first p.others p.first_name p.other_names)

clean-rooted :
    (c : Text) (cs : List Text)
    → IsName c
    → All IsName cs
    → clean (47 ∷ join_slash (c ∷ cs)) ≡ 47 ∷ join_slash (c ∷ cs)
unfolding clean clean_components
clean-rooted c cs n h =
    rw
      (
        split-append [] (join_slash (c ∷ cs)) tt,
        split-join_slash c cs n h,
        clean_components-eq_self true [] (c ∷ cs) (n, h),
      )
      refl

pub clean-IsAbsolute : (a : Text) → IsAbsolute a → clean a ≡ a
clean-IsAbsolute a p =
    let q = p.below_path in
    rw (p.spelled, q.spelled) (clean-rooted q.first q.others q.first_name q.other_names)

join-clean : (a b : Text) → a ≢ [] → join a b ≡ clean (a ++ 47 ∷ b)
unfolding join
join-clean [] b n = absurd (n refl)
join-clean (c ∷ a) b n = refl

join_slash_ne : (c : Text) (cs : List Text) → IsName c → join_slash (c ∷ cs) ≢ []
unfolding join_slash
join_slash_ne [] cs n h = cc (n.0)
join_slash_ne (x ∷ c) [] n h = cc
join_slash_ne (x ∷ c) (d ∷ cs) n h = cc

path_ne : (a : Text) → IsPath a → a ≢ []
path_ne a p h = join_slash_ne p.first p.others p.first_name (sym p.spelled ∙ h)

pub join-IsPath : (a b : Text) → IsPath a → IsPath b → join a b ≡ a ++ 47 ∷ b
join-IsPath a b p q =
    join-clean a b (path_ne a p) ∙ clean-IsPath (a ++ 47 ∷ b) (append-IsPath a b p q)

pub join-IsAbsolute : (a b : Text) → IsAbsolute a → IsPath b → join a b ≡ a ++ 47 ∷ b
join-IsAbsolute a b p q =
    join-clean a b (λ h. cc (p.spelled, h))
    ∙ clean-IsAbsolute (a ++ 47 ∷ b) (record {
      below = p.below ++ 47 ∷ b;
      below_path = append-IsPath p.below b p.below_path q;
      spelled = ap (λ z. z ++ 47 ∷ b) p.spelled;
    })

pub has_prefix-append : (a b : Text) → has_prefix (a ++ b) a ≡ true
unfolding has_prefix
has_prefix-append [] b = refl
has_prefix-append (c ∷ a) b = ground (arith, has_prefix-append a b)

pub append_cancel {ℓ} : {A : Type ℓ} (a b c : List A) → a ++ b ≡ a ++ c → b ≡ c
append_cancel [] b c h = h
append_cancel (x ∷ a) b c h = append_cancel a b c (cc)
