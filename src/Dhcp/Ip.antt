-- ===== src/Dhcp/Ip.antt =====
-- services/pxe-stack/internal/dhcp/ip.go, and the methods of net.IP that it uses. An address is a
-- slice of bytes, or nil; an int result of a comparison is an `Ordering`.
pub mod Value
use goosed.Support.{
  ℕ, zero, suc, ◌+◌, ◌%◌, Bool, true, false, ◌&&◌, List, [], ◌∷◌, ◌==◌, ltb, Ordering,
  if◌then◌else◌, length, get_or, set, drop,
}
use goosed.Support.Text.{Text, text_eq, has_prefix}

-- net.IP
pub data Ip : Type 0 where
  nil : Ip
  addr : List ℕ → Ip

-- the first twelve bytes of an IPv4 address in its 16-byte form
abbrev pub v4_in_v6_prefix : List ℕ
v4_in_v6_prefix = 0 ∷ 0 ∷ 0 ∷ 0 ∷ 0 ∷ 0 ∷ 0 ∷ 0 ∷ 0 ∷ 0 ∷ 0xff ∷ 0xff ∷ []

-- IP.To4
unfoldable pub to4 : Ip → Ip
unfolding has_prefix
to4 nil = nil
to4 (addr b) =
    if length b == 4
    then addr b
    else if length b == 16 && has_prefix b v4_in_v6_prefix
    then addr (drop 12 b)
    else nil

abbrev bytes_of : Ip → List ℕ
bytes_of nil = []
bytes_of (addr b) = b

abbrev equal_bytes : List ℕ → List ℕ → Bool
equal_bytes a b =
    if length a == length b
    then text_eq a b
    else if length a == 4 && length b == 16
    then has_prefix b v4_in_v6_prefix && text_eq a (drop 12 b)
    else if length a == 16 && length b == 4
    then has_prefix a v4_in_v6_prefix && text_eq (drop 12 a) b
    else false

-- IP.Equal
unfoldable pub equal : Ip → Ip → Bool
unfolding text_eq has_prefix
equal a b = equal_bytes (bytes_of a) (bytes_of b)

unfoldable pub clone_ip : Ip → Ip
clone_ip nil = nil
clone_ip (addr b) = addr b

-- The loop of incrementIP, over the indices below the counter, the last one first.
unfoldable pub increment_from : ℕ → List ℕ → List ℕ
increment_from zero res = res
increment_from (suc i) res =
    let b : ℕ = (get_or res i 0 + 1) % 256 in
    let next = set res i b in elim (b == 0) [ true ↦ increment_from i next | false ↦ next ]

unfoldable pub increment_ip : Ip → Ip
unfolding increment_from
increment_ip nil = nil
increment_ip (addr b) = addr (increment_from (length b) b)

-- The loop of compareIP: both sides have the same length there.
unfoldable pub compare_bytes : List ℕ → List ℕ → Ordering
compare_bytes (a ∷ as') (b ∷ bs) =
    if ltb a b then Ordering.lt else if ltb b a then Ordering.gt else compare_bytes as' bs
compare_bytes [] _ = Ordering.eq
compare_bytes _ [] = Ordering.eq

-- strings.Compare
unfoldable pub compare_text : Text → Text → Ordering
compare_text [] [] = Ordering.eq
compare_text [] (b ∷ t) = Ordering.lt
compare_text (a ∷ s) [] = Ordering.gt
compare_text (a ∷ s) (b ∷ t) =
    if ltb a b then Ordering.lt else if ltb b a then Ordering.gt else compare_text s t

abbrev compare_four : Ip → Ip → Ordering → Ordering
compare_four (addr a) (addr b) other = compare_bytes a b
compare_four nil _ other = other
compare_four _ nil other = other

-- compareIP; `ip_string` is IP.String, which is asked where an address is no IPv4 address.
unfoldable pub compare_ip : (Ip → Text) → Ip → Ip → Ordering
unfolding to4 compare_bytes compare_text
compare_ip ip_string nil nil = Ordering.eq
compare_ip ip_string nil (addr b) = Ordering.lt
compare_ip ip_string (addr a) nil = Ordering.gt
compare_ip ip_string (addr a) (addr b) =
    compare_four (to4 (addr a)) (to4 (addr b))
      (compare_text (ip_string (addr a)) (ip_string (addr b)))
