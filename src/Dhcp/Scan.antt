-- ===== src/Dhcp/Scan.antt =====
-- What the two loops of `assign` return, over the numbers that the addresses spell.
use goosed.Support.{
  ℕ, zero, suc, ◌+◌, ◌≤◌, ◌<◌, ◌≡◌, refl, Bool, true, false, Option, none, some, arith, not,
  if◌then◌else◌, ◌≢◌,
}
use goosed.Support.Text.{Text}
use native.Mathlib.Decide.{dec_lt}
use goosed.Dhcp.Ip.{Ip, compare_ip, increment_ip}
use goosed.Dhcp.Ip.Value.{
  IsV4, value, value-injective, top, increment_ip-value, increment_ip-IsV4, compare_ip-value,
}
use goosed.Dhcp.Handler.{
  Handler, is_allocated, Scan, exhausted, free, wrapped, scan_up, scan_all, is_greater, is_equal,
}

-- `x` is a free address from `ip` up to the end of the range.
pub record IsFree (h : Handler) (now : ℕ) (ip x : Ip) : Type 0 where
  pub v4 : IsV4 x
  pub low : value ip ≤ value x
  pub high : value x ≤ value h.end_ip
  pub unleased : is_allocated h.leases now x ≡ false

-- Every address from `ip` up to the end of the range is leased.
abbrev pub IsFull : Handler → ℕ → Ip → Type 0
IsFull h now ip =
    (x : Ip)
    → IsV4 x
    → value ip ≤ value x
    → value x ≤ value h.end_ip
    → is_allocated h.leases now x ≡ true

abbrev pub ScanResult : Handler → ℕ → Ip → Option Scan → Type 0
ScanResult h now ip none = Unit {0}
ScanResult h now ip (some (free x)) = IsFree h now ip x
ScanResult h now ip (some wrapped) = IsFull h now ip × (value ip ≤ value h.end_ip)
ScanResult h now ip (some exhausted) = IsFull h now ip

module _ (P : Option Scan → Type 0) (ip : Ip) (rest : Option Scan) where
  up_cases :
      (g a e : Bool)
      → (g ≡ true → P (some exhausted))
      → (g ≡ false → a ≡ false → P (some (free ip)))
      → (g ≡ false → a ≡ true → e ≡ true → P (some wrapped))
      → (g ≡ false → a ≡ true → e ≡ false → P rest)
      → P (
          if g
          then some exhausted
          else if not a
          then some (free ip)
          else if e
          then some wrapped
          else rest)
  up_cases true a e p q r t = p refl
  up_cases false false e p q r t = q refl refl
  up_cases false true true p q r t = r refl refl refl
  up_cases false true false p q r t = t refl refl refl

  all_cases :
      (g a : Bool)
      → (g ≡ true → P (some exhausted))
      → (g ≡ false → a ≡ false → P (some (free ip)))
      → (g ≡ false → a ≡ true → P rest)
      → P (if g then some exhausted else if not a then some (free ip) else rest)
  all_cases true a p q t = p refl
  all_cases false false p q t = q refl refl
  all_cases false true p q t = t refl refl

module _ (s : Ip → Text) (h : Handler) (now : ℕ) (ve : IsV4 h.end_ip)
    (small : value h.end_ip < top) where
  abbrev greater : Ip → Bool
  greater ip = is_greater (compare_ip s ip h.end_ip)

  lt_of_greater : (ip : Ip) → IsV4 ip → greater ip ≡ true → value h.end_ip < value ip
  lt_of_greater ip v g = ground (arith, compare_ip-value s v ve)

  le_of_greater : (ip : Ip) → IsV4 ip → greater ip ≡ false → value ip ≤ value h.end_ip
  le_of_greater ip v g = ground (arith, compare_ip-value s v ve)

  IsFull-past : (ip : Ip) → value h.end_ip < value ip → IsFull h now ip
  IsFull-past ip l x vx lo hi = absurd (omega arith)

  IsFree-here :
      (ip : Ip)
      → IsV4 ip
      → value ip ≤ value h.end_ip
      → is_allocated h.leases now ip ≡ false
      → IsFree h now ip ip
  IsFree-here ip v l a = record { v4 = v; low = omega arith; high = l; unleased = a }

  IsFull-here :
      (ip : Ip)
      → IsV4 ip
      → is_allocated h.leases now ip ≡ true
      → value h.end_ip ≤ value ip
      → IsFull h now ip
  IsFull-here ip v a l x vx lo hi = rw (value-injective vx v (omega arith)) a

  IsFull-step :
      (ip : Ip)
      → IsV4 ip
      → value ip ≤ value h.end_ip
      → is_allocated h.leases now ip ≡ true
      → IsFull h now (increment_ip ip)
      → IsFull h now ip
  IsFull-step ip v l a f x vx lo hi = elim (dec_lt (value ip) (value x)) [
    | yes p ↦ f x vx (omega (arith, increment_ip-value v (omega arith))) hi
    | no p ↦ rw (value-injective vx v (omega arith)) a
  ]

  step-result :
      (ip : Ip)
      → IsV4 ip
      → value ip ≤ value h.end_ip
      → is_allocated h.leases now ip ≡ true
      → (r : Option Scan) → ScanResult h now (increment_ip ip) r
      → ScanResult h now ip r
  step-result ip v l a none f = tt
  step-result ip v l a (some exhausted) f = IsFull-step ip v l a f
  step-result ip v l a (some wrapped) f = (IsFull-step ip v l a f.0, l)
  step-result ip v l a (some (free x)) f = record {
    v4 = f.v4;
    low = omega (arith, increment_ip-value v (omega arith), f.low);
    high = f.high;
    unleased = f.unleased;
  }

  pub scan_up-result :
      (fuel : ℕ) (ip : Ip) → IsV4 ip → ScanResult h now ip (scan_up s fuel h now ip)
  unfolding scan_up
  scan_up-result zero ip v = tt
  scan_up-result (suc fuel) ip v =
      up_cases (ScanResult h now ip) ip (scan_up s fuel h now (increment_ip ip)) (greater ip)
        (is_allocated h.leases now ip) (is_equal (compare_ip s ip h.end_ip))
        (λ g. IsFull-past ip (lt_of_greater ip v g))
        (λ g a. IsFree-here ip v (le_of_greater ip v g) a)
        (λ g a e.
          (IsFull-here ip v a (ground (arith, compare_ip-value s v ve)), le_of_greater ip v g))
        (λ g a e.
          step-result ip v (le_of_greater ip v g) a _
            (scan_up-result fuel (increment_ip ip) (increment_ip-IsV4 v)))

  pub scan_all-result :
      (fuel : ℕ) (ip : Ip) → IsV4 ip → ScanResult h now ip (scan_all s fuel h now ip)
  unfolding scan_all
  scan_all-result zero ip v = tt
  scan_all-result (suc fuel) ip v =
      all_cases (ScanResult h now ip) ip (scan_all s fuel h now (increment_ip ip)) (greater ip)
        (is_allocated h.leases now ip) (λ g. IsFull-past ip (lt_of_greater ip v g))
        (λ g a. IsFree-here ip v (le_of_greater ip v g) a)
        (λ g a.
          step-result ip v (le_of_greater ip v g) a _
            (scan_all-result fuel (increment_ip ip) (increment_ip-IsV4 v)))

  -- A round for each address that is left, and one more, are enough.
  next_round :
      (fuel : ℕ) (ip : Ip)
      → IsV4 ip
      → value ip ≤ value h.end_ip
      → value h.end_ip + 1 < value ip + suc fuel
      → (value (increment_ip ip) ≤ value h.end_ip + 1)
        × (value h.end_ip + 1 < value (increment_ip ip) + fuel)
  next_round fuel ip v l f = omega (arith, increment_ip-value v (omega arith))

  pub scan_up_total :
      (fuel : ℕ) (ip : Ip)
      → IsV4 ip
      → value ip ≤ value h.end_ip + 1
      → value h.end_ip + 1 < value ip + fuel
      → scan_up s fuel h now ip ≢ none
  unfolding scan_up
  scan_up_total zero ip v l f = absurd (omega arith)
  scan_up_total (suc fuel) ip v l f =
      up_cases (λ r. r ≢ none) ip (scan_up s fuel h now (increment_ip ip)) (greater ip)
        (is_allocated h.leases now ip) (is_equal (compare_ip s ip h.end_ip)) (λ g. λ e. cc)
        (λ g a. λ e. cc) (λ g a e. λ e'. cc)
        (λ g a e.
          let n = next_round fuel ip v (le_of_greater ip v g) f in
          scan_up_total fuel (increment_ip ip) (increment_ip-IsV4 v) n.0 n.1)

  pub scan_all_total :
      (fuel : ℕ) (ip : Ip)
      → IsV4 ip
      → value ip ≤ value h.end_ip + 1
      → value h.end_ip + 1 < value ip + fuel
      → scan_all s fuel h now ip ≢ none
  unfolding scan_all
  scan_all_total zero ip v l f = absurd (omega arith)
  scan_all_total (suc fuel) ip v l f =
      all_cases (λ r. r ≢ none) ip (scan_all s fuel h now (increment_ip ip)) (greater ip)
        (is_allocated h.leases now ip) (λ g. λ e. cc) (λ g a. λ e. cc)
        (λ g a.
          let n = next_round fuel ip v (le_of_greater ip v g) f in
          scan_all_total fuel (increment_ip ip) (increment_ip-IsV4 v) n.0 n.1)

  -- Beyond the end of the range the first loop gives up at once.
  pub scan_up_past :
      (fuel : ℕ) (ip : Ip)
      → IsV4 ip
      → value h.end_ip < value ip
      → scan_up s (suc fuel) h now ip ≡ some exhausted
  unfolding scan_up
  scan_up_past fuel ip v l = ground (arith, compare_ip-value s v ve)

  -- From inside the range it never does.
  pub scan_up_exhausted :
      (fuel : ℕ) (ip : Ip)
      → IsV4 ip
      → scan_up s fuel h now ip ≡ some exhausted
      → value h.end_ip < value ip
  unfolding scan_up
  scan_up_exhausted zero ip v = λ p. cc
  scan_up_exhausted (suc fuel) ip v =
      up_cases (λ r. r ≡ some exhausted → value h.end_ip < value ip) ip
        (scan_up s fuel h now (increment_ip ip)) (greater ip) (is_allocated h.leases now ip)
        (is_equal (compare_ip s ip h.end_ip)) (λ g p. lt_of_greater ip v g) (λ g a p. cc)
        (λ g a e p. cc)
        (λ g a e p.
          let later = scan_up_exhausted fuel (increment_ip ip) (increment_ip-IsV4 v) p in
          let inside = le_of_greater ip v g in
          let apart : value ip ≢ value h.end_ip = λ q. ground (arith, compare_ip-value s v ve) in
          omega (arith, increment_ip-value v (omega arith)))
