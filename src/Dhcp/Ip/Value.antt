-- ===== src/Dhcp/Ip/Value.antt =====
-- An IPv4 address read as the number that its four bytes spell.
use goosed.Support.{
  ℕ, zero, suc, true, false, set, get_or, ◌+◌, ◌*◌, ◌%◌, ◌<◌, ◌≡◌, refl, List, [], ◌∷◌, ◌==◌,
  compare, arith,
}
use goosed.Support.Text.{Text}
use goosed.Dhcp.Ip.{Ip, nil, addr, clone_ip, to4, equal, increment_ip, increment_from, compare_ip}

-- An address of four bytes.
pub data IsV4 : Ip → Type 0 where
  four : {a b c d : ℕ} → a < 256 → b < 256 → c < 256 → d < 256 → IsV4 (addr (a ∷ b ∷ c ∷ d ∷ []))

abbrev number : List ℕ → ℕ → ℕ
number [] n = n
number (b ∷ bs) n = number bs (n * 256 + b)

-- The number that the bytes spell, the first byte the most significant.
abbrev pub value : Ip → ℕ
value nil = 0
value (addr b) = number b 0

abbrev pub top : ℕ
top = 4294967295

pub to4-IsV4 : {x : Ip} → IsV4 x → to4 x ≡ x
unfolding to4
to4-IsV4 (four _ _ _ _) = refl

pub increment_ip-value : {x : Ip} → IsV4 x → value x < top → value (increment_ip x) ≡ value x + 1
unfolding increment_ip
increment_ip-value (four ha hb hc hd) h = ground arith

set-IsV4 : {l : List ℕ} (i n : ℕ) → IsV4 (addr l) → n < 256 → IsV4 (addr (set l i n))
set-IsV4 zero n (four ha hb hc hd) h = four h hb hc hd
set-IsV4 (suc zero) n (four ha hb hc hd) h = four ha h hc hd
set-IsV4 (suc (suc zero)) n (four ha hb hc hd) h = four ha hb h hd
set-IsV4 (suc (suc (suc zero))) n (four ha hb hc hd) h = four ha hb hc h
set-IsV4 (suc (suc (suc (suc i)))) n (four ha hb hc hd) h = four ha hb hc hd

increment_from-IsV4 : (i : ℕ) (l : List ℕ) → IsV4 (addr l) → IsV4 (addr (increment_from i l))
unfolding increment_from
increment_from-IsV4 zero l h = h
increment_from-IsV4 (suc i) l h =
    let b : ℕ = (get_or l i 0 + 1) % 256 in
    let h' = set-IsV4 i b h (omega arith) in
    elim (b == 0)
      as (λ t. IsV4 (addr (elim t [ true ↦ increment_from i (set l i b) | false ↦ set l i b ]))) [
        | true ↦ increment_from-IsV4 i (set l i b) h'
        | false ↦ h'
      ]

pub increment_ip-IsV4 : {x : Ip} → IsV4 x → IsV4 (increment_ip x)
unfolding increment_ip
increment_ip-IsV4 {x} (four ha hb hc hd) = increment_from-IsV4 4 _ (four ha hb hc hd)

-- Past the last address of all, the next one is 0.0.0.0.
pub increment_ip-top : {x : Ip} → IsV4 x → value x ≡ top → value (increment_ip x) ≡ 0
unfolding increment_ip
increment_ip-top (four ha hb hc hd) h = ground arith

pub compare_ip-value :
    (s : Ip → Text) {x y : Ip} → IsV4 x → IsV4 y → compare_ip s x y ≡ compare (value x) (value y)
unfolding compare_ip
compare_ip-value s (four ha hb hc hd) (four ha' hb' hc' hd') = ground arith

pub equal-value : {x y : Ip} → IsV4 x → IsV4 y → equal x y ≡ (value x == value y)
unfolding equal
equal-value (four ha hb hc hd) (four ha' hb' hc' hd') = ground arith

pub value-injective : {x y : Ip} → IsV4 x → IsV4 y → value x ≡ value y → x ≡ y
value-injective (four {a} {b} {c} {d} p q r t)
      (four {a = a'} {b = b'} {c = c'} {d = d'} p' q' r' t') h =
    let ea : a ≡ a' = omega arith in
    let eb : b ≡ b' = omega arith in
    let ec : c ≡ c' = omega arith in let ed : d ≡ d' = omega arith in cc

pub clone_ip-eq_self : (x : Ip) → clone_ip x ≡ x
unfolding clone_ip
clone_ip-eq_self nil = refl
clone_ip-eq_self (addr b) = refl
