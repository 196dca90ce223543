-- ===== src/PxeCommand/Ports.antt =====
-- services/pxe-stack/cmd/pxe/main.go: the ports that are tried.
use goosed.Support.{
  ℕ, zero, suc, ◌<◌, ◌≡◌, ◌≢◌, false, List, [], ◌∷◌, ◌++◌, ◌==◌, any, Bool-cases, All, inl, inr,
  arith,
}
use goosed.Support.Strconv.{ℤ, pos, negsuc}
use goosed.PxeCommand.Listen.{add_fallback, add_fallbacks, preferred, or_default, ports_to_try}

-- Ports that are positive, with each of them once.
pub Distinct : List ℕ → Type 0
Distinct [] = Unit {0}
Distinct (p ∷ ports) = (0 < p) × All (λ q. q ≢ p) ports × Distinct ports

All-snoc : (P : ℕ → Type 0) (xs : List ℕ) (a : ℕ) → All P xs → P a → All P (xs ++ a ∷ [])
All-snoc P [] a h p = (p, tt)
All-snoc P (x ∷ xs) a (q, h) p = (q, All-snoc P xs a h p)

snoc-Distinct :
    (ports : List ℕ) (port : ℕ)
    → Distinct ports
    → 0 < port
    → any (λ p. p == port) ports ≡ false
    → Distinct (ports ++ port ∷ [])
unfolding Distinct any
snoc-Distinct [] port d h n = (h, tt, tt)
snoc-Distinct (p ∷ ports) port (q, a, d) h n = (
  q,
  All-snoc (λ r. r ≢ p) ports port a (λ e. ground (arith, n, e)),
  snoc-Distinct ports port d h (ground (arith, n)),
)

add_fallback-Distinct :
    (ports : List ℕ) (port : ℕ) → Distinct ports → Distinct (add_fallback ports port)
add_fallback-Distinct ports port d = elim (Bool-cases (port == 0)) [
  | inl z ↦ rw z d
  | inr z ↦ elim (Bool-cases (any (λ p. p == port) ports)) [
    | inl y ↦ rw (z, y) d
    | inr n ↦ rw (z, n) (snoc-Distinct ports port d (ground (arith, z)) n)
  ]
]

add_fallbacks-Distinct :
    (ports fallbacks : List ℕ) → Distinct ports → Distinct (add_fallbacks ports fallbacks)
unfolding add_fallbacks
add_fallbacks-Distinct ports [] d = d
add_fallbacks-Distinct ports (port ∷ fallbacks) d =
    add_fallbacks-Distinct (add_fallback ports port) fallbacks (add_fallback-Distinct ports port d)

preferred-Distinct : (port : ℤ) → Distinct (preferred port)
unfolding Distinct
preferred-Distinct (pos zero) = tt
preferred-Distinct (pos (suc n)) = (omega arith, tt, tt)
preferred-Distinct (negsuc n) = tt

or_default-Distinct :
    (ports : List ℕ) → Distinct ports → (or_default ports ≢ []) × Distinct (or_default ports)
unfolding Distinct
or_default-Distinct [] d = ((λ h. cc), (omega arith, tt, tt))
or_default-Distinct (p ∷ ports) d = ((λ h. cc), d)

-- There is a port to try, and the ports to try are positive and differ from each other, whatever
-- the configuration says.
pub ports_to_try-Distinct :
    (port : ℤ) (fallbacks : List ℕ)
    → (ports_to_try port fallbacks ≢ []) × Distinct (ports_to_try port fallbacks)
unfolding ports_to_try
ports_to_try-Distinct port fallbacks =
    or_default-Distinct (add_fallbacks (preferred port) fallbacks)
      (add_fallbacks-Distinct (preferred port) fallbacks (preferred-Distinct port))
