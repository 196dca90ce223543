-- ===== src/Config/Ports.antt =====
-- services/pxe-stack/internal/config/config.go: the ports that parsePortList accepts.
use goosed.Support.{
  ℕ, ◌≤◌, ◌≡◌, ◌≢◌, refl, false, Option, none, some, List, [], ◌∷◌, ◌++◌, ◌==◌, any, inl, inr,
  arith, Bool-cases, All,
}
use goosed.Support.Text.{Text, trim_space, split}
use goosed.Support.Results.{Result, ok, err, ok-injective}
use goosed.Support.Strconv.{ℤ, pos, negsuc, atoi}
use goosed.Config.Env.{is_unset, PortError, port_of, add_port, collect_ports, parse_port_list}

-- No port stands twice in the list.
abbrev pub Distinct : List ℕ → Type 0
Distinct [] = Unit {0}
Distinct (p ∷ ps) = All (λ q. p ≢ q) ps × Distinct ps

abbrev pub IsPort : ℕ → Type 0
IsPort p = (1 ≤ p) × (p ≤ 65535)

port_of-IsPort : (part : Text) (o : Option ℤ) (n : ℕ) → port_of part o ≡ ok n → IsPort n
port_of-IsPort part none n e = absurd (cc)
port_of-IsPort part (some (negsuc m)) n e = absurd (cc)
port_of-IsPort part (some (pos m)) n e = (ground arith, ground arith)

All-append : (P : ℕ → Type 0) (ps : List ℕ) (n : ℕ) → All P ps → P n → All P (ps ++ n ∷ [])
All-append P [] n a h = (h, tt)
All-append P (p ∷ ps) n a h = (a.0, All-append P ps n a.1 h)

any-All : (ps : List ℕ) (n : ℕ) → any (λ p. p == n) ps ≡ false → All (λ p. p ≢ n) ps
unfolding any
any-All [] n e = tt
any-All (p ∷ ps) n e = (λ q. absurd (ground arith), any-All ps n (ground arith))

Distinct-append :
    (ps : List ℕ) (n : ℕ) → Distinct ps → All (λ p. p ≢ n) ps → Distinct (ps ++ n ∷ [])
Distinct-append [] n d a = (tt, tt)
Distinct-append (p ∷ ps) n d a = (All-append _ ps n d.0 a.0, Distinct-append ps n d.1 a.1)

add_port_lem :
    (ports : List ℕ) (r : Result PortError ℕ) (rest : List ℕ → Result PortError (List ℕ))
    {found : List ℕ}
    → All IsPort ports
    → Distinct ports
    → ((p : ℕ) → r ≡ ok p → IsPort p)
    → ((more : List ℕ)
        → All IsPort more
        → Distinct more
        → rest more ≡ ok found
        → All IsPort found × Distinct found)
    → add_port ports r rest ≡ ok found
    → All IsPort found × Distinct found
add_port_lem ports (err x) rest a d f k e = absurd (cc)
add_port_lem ports (ok p) rest a d f k e = elim (Bool-cases (any (λ q. q == p) ports)) [
  | inl y ↦ k ports a d (rw y at e)
  | inr m ↦
      k (ports ++ p ∷ []) (All-append IsPort ports p a (f p refl))
        (Distinct-append ports p d (any-All ports p m)) (rw m at e)
]

collect_ports_lem :
    (parts : List Text) (ports found : List ℕ)
    → All IsPort ports
    → Distinct ports
    → collect_ports parts ports ≡ ok found
    → All IsPort found × Distinct found
unfolding collect_ports
collect_ports_lem [] ports found a d e = let p : ports ≡ found = ok-injective e in rw (← p) (a, d)
collect_ports_lem (part ∷ parts) ports found a d e =
    elim (Bool-cases (is_unset (trim_space part))) [
      | inl y ↦ collect_ports_lem parts ports found a d (rw y at e)
      | inr n ↦
          add_port_lem ports (port_of (trim_space part) (atoi (trim_space part)))
            (collect_ports parts) a d
            (λ p. port_of-IsPort (trim_space part) (atoi (trim_space part)) p)
            (λ more a' d' e'. collect_ports_lem parts more found a' d' e') (rw n at e)
    ]

-- The ports that parsePortList returns are between 1 and 65535, and no port stands twice among them.
pub parse_port_list_lem :
    (value : Text) (ports : List ℕ)
    → parse_port_list value ≡ ok ports
    → All IsPort ports × Distinct ports
unfolding parse_port_list
parse_port_list_lem value ports e = collect_ports_lem (split 44 value) [] ports tt tt e
