-- ===== src/Config/Range.antt =====
-- services/pxe-stack/internal/config/config.go: what Load accepts is a range that the DHCP handler
-- can work with.
use goosed.Support.{
  ℕ, zero, suc, ◌+◌, ◌≤◌, ◌<◌, ◌≡◌, true, false, ◌||◌, Option, List, [], ◌∷◌, inl, inr, arith,
  Bool-cases, All, length, drop,
}
use goosed.Support.Text.{Text, lit, has_prefix}
use goosed.Support.Results.{ok, err}
use goosed.Dhcp.Ip.{Ip, nil, addr, to4, compare_ip, v4_in_v6_prefix}
use goosed.Dhcp.Ip.Value.{IsV4, four, value, top, compare_ip-value}
use goosed.Dhcp.Handler.{DhcpConfig, Handler, new_server}
use goosed.Dhcp.Server.{Request}
use goosed.Dhcp.Safety.{Run, NoConflict, Run-NoConflict}
use goosed.Config.Env.{is_unset, get_env}
use goosed.Config.Load.{
  Host, DhcpSection, PxeConfig, Loading, check, is_nil, non_nil, is_greater, optional_ip, validate,
  read_dhcp, load, fallback, parse_mask, parse_dns, parse_lease, resolve_dhcp_interface,
}

-- What a result says if it is no error.
abbrev Ensures : {A : Type 0} → (A → Type 0) → Loading A → Type 0
Ensures Q (ok a) = Q a
Ensures Q (err e) = Unit {0}

check-Ensures :
    {A B : Type 0} (P : A → Type 0) (Q : B → Type 0) (r : Loading A) (f : A → Loading B)
    → Ensures P r
    → ((a : A) → P a → Ensures Q (f a))
    → Ensures Q (check r f)
check-Ensures P Q (ok a) f h k = k a h
check-Ensures P Q (err e) f h k = tt

skip-Ensures :
    {A B : Type 0} (Q : B → Type 0) (r : Loading A) (f : A → Loading B)
    → ((a : A) → Ensures Q (f a))
    → Ensures Q (check r f)
skip-Ensures Q (ok a) f k = k a
skip-Ensures Q (err e) f k = tt

-- What net.ParseIP is documented to return: nil, or the 16-byte form of an address.
pub data IsParsed : Ip → Type 0 where
  no_address : IsParsed nil
  sixteen : {b : List ℕ} → length b ≡ 16 → All (λ x. x < 256) b → IsParsed (addr b)

four_bytes : (b : List ℕ) → length b ≡ 4 → All (λ x. x < 256) b → IsV4 (addr b)
four_bytes (a ∷ b ∷ c ∷ d ∷ []) h l = four l.0 l.1.0 l.1.1.0 l.1.1.1.0
four_bytes [] h l = absurd (omega arith)
four_bytes (a ∷ []) h l = absurd (omega arith)
four_bytes (a ∷ b ∷ []) h l = absurd (omega arith)
four_bytes (a ∷ b ∷ c ∷ []) h l = absurd (omega arith)
four_bytes (a ∷ b ∷ c ∷ d ∷ e ∷ rest) h l = absurd (omega arith)

length-drop : (n : ℕ) (b : List ℕ) (m : ℕ) → length b ≡ n + m → length (drop n b) ≡ m
length-drop zero b m h = omega (arith, h)
length-drop (suc n) [] m h = absurd (omega arith)
length-drop (suc n) (x ∷ b) m h = length-drop n b m (omega arith)

All-drop : (P : ℕ → Type 0) (n : ℕ) (b : List ℕ) → All P b → All P (drop n b)
All-drop P zero b a = a
All-drop P (suc n) [] a = tt
All-drop P (suc n) (x ∷ b) a = All-drop P n b a.1

parsed-IsV4 : (x : Ip) → IsParsed x → is_nil (to4 x) ≡ false → IsV4 (to4 x)
unfolding to4
parsed-IsV4 nil p n = absurd (cc)
parsed-IsV4 (addr b) (sixteen h l) n = elim (Bool-cases (has_prefix b v4_in_v6_prefix)) [
  | inl y ↦
      rw (h, y) (four_bytes (drop 12 b) (length-drop 12 b 4 h) (All-drop (λ x. x < 256) 12 b l))
  | inr m ↦ absurd (ground arith)
]

-- A section that was accepted.
pub record IsUsable (d : DhcpSection) : Type 0 where
  pub start_v4 : IsV4 (to4 d.range_start)
  pub end_v4 : IsV4 (to4 d.range_end)
  pub ordered : value (to4 d.range_start) ≤ value (to4 d.range_end)
  pub server_v4 : is_nil (to4 d.server_ip) ≡ false

abbrev pub Accepted : DhcpSection → Type 0
Accepted d = d.enabled ≡ true → IsUsable d

-- What the handler reads of a section.
abbrev pub dhcp_config : DhcpSection → DhcpConfig
dhcp_config d = record {
  range_start = d.range_start;
  range_end = d.range_end;
  subnet_mask = d.subnet_mask;
  router = d.router;
  dns_servers = d.dns_servers;
  lease_time = d.lease_time;
  server_ip = d.server_ip;
  next_server = d.next_server;
  boot_filename = d.boot_filename;
}

module _ (parse_ip : Text → Ip) (ip_string : Ip → Text) (host : Host)
    (parses : (s : Text) → IsParsed (parse_ip s)) where
  non_nil-IsParsed : (key v : Text) (x : Ip) → IsParsed x → Ensures IsParsed (non_nil key v x)
  non_nil-IsParsed key v nil p = tt
  non_nil-IsParsed key v (addr b) p = p

  optional-IsParsed : (key : Text) → Ensures IsParsed (optional_ip parse_ip ip_string host key)
  unfolding optional_ip
  optional-IsParsed key = elim (Bool-cases (is_unset (host.getenv key))) [
    | inl y ↦ rw y no_address
    | inr n ↦ rw n (non_nil-IsParsed key (host.getenv key) _ (parses (host.getenv key)))
  ]

  abbrev ReadRange : DhcpSection → Type 0
  ReadRange d = IsParsed d.range_start × IsParsed d.range_end

  read_dhcp-ReadRange : Ensures ReadRange (read_dhcp parse_ip ip_string host)
  unfolding read_dhcp
  read_dhcp-ReadRange =
      check-Ensures IsParsed ReadRange _ _ (optional-IsParsed (lit "PXE_DHCP_RANGE_START"))
        (λ start p.
          check-Ensures IsParsed ReadRange _ _ (optional-IsParsed (lit "PXE_DHCP_RANGE_END"))
            (λ end q.
              skip-Ensures ReadRange
                (parse_mask parse_ip ip_string host (lit "PXE_DHCP_SUBNET_MASK")) _
                (λ mask.
                  skip-Ensures ReadRange
                    (optional_ip parse_ip ip_string host (lit "PXE_DHCP_ROUTER")) _
                    (λ router.
                      skip-Ensures ReadRange
                        (parse_dns parse_ip ip_string host (host.getenv (lit "PXE_DHCP_DNS"))) _
                        (λ dns.
                          skip-Ensures ReadRange
                            (parse_lease (host.getenv (lit "PXE_DHCP_LEASE_SECONDS"))) _
                            (λ lease.
                              skip-Ensures ReadRange
                                (optional_ip parse_ip ip_string host (lit "PXE_DHCP_SERVER_IP")) _
                                (λ server.
                                  skip-Ensures ReadRange
                                    (optional_ip parse_ip ip_string host
                                      (lit "PXE_DHCP_NEXT_SERVER"))
                                    _
                                    (λ next.
                                      skip-Ensures ReadRange
                                        (resolve_dhcp_interface host
                                          (get_env (host.getenv (lit "PXE_DHCP_INTERFACE"))
                                            (lit "eth0,en0"))
                                          server)
                                        _ (λ interface. (p, q))))))))))

  in_order :
      {x y : Ip}
      → IsV4 x
      → IsV4 y
      → is_greater (compare_ip ip_string x y) ≡ false
      → value x ≤ value y
  in_order hx hy h = ground (arith, compare_ip-value ip_string hx hy)

  validate-Accepted : (d : DhcpSection) → ReadRange d → Ensures Accepted (validate ip_string d)
  unfolding validate
  validate-Accepted d r = elim (Bool-cases d.enabled) [
    | inr off ↦ rw off (λ on. absurd (ground arith))
    | inl on ↦ elim (Bool-cases (is_nil d.range_start || is_nil d.range_end)) [
      | inl a ↦ rw (on, a) tt
      | inr a ↦ elim (Bool-cases (is_nil (to4 d.range_start) || is_nil (to4 d.range_end))) [
        | inl b ↦ rw (on, a, b) tt
        | inr b ↦
            let start = parsed-IsV4 d.range_start r.0 (ground arith) in
            let end = parsed-IsV4 d.range_end r.1 (ground arith) in
            elim (Bool-cases
              (is_greater (compare_ip ip_string (to4 d.range_start) (to4 d.range_end)))) [
                | inl c ↦ rw (on, a, b, c) tt
                | inr c ↦ elim (Bool-cases (is_nil d.server_ip)) [
                  | inl s ↦ rw (on, a, b, c, s) tt
                  | inr s ↦ elim (Bool-cases (is_nil (to4 d.server_ip))) [
                    | inl t ↦ rw (on, a, b, c, s, t) tt
                    | inr t ↦
                        rw (on, a, b, c, s, t)
                          (λ _. record {
                            start_v4 = start;
                            end_v4 = end;
                            ordered = in_order start end c;
                            server_v4 = t;
                          })
                  ]
                ]
              ]
      ]
    ]
  ]

  load-Ensures : Ensures (λ (c : PxeConfig). Accepted c.dhcp) (load parse_ip ip_string host)
  unfolding load
  load-Ensures = check-Ensures ReadRange _ _ _ read_dhcp-ReadRange (λ d r.
      check-Ensures Accepted _ _ _ (validate-Accepted d r) (λ d' a.
        skip-Ensures _ (fallback (host.getenv (lit "PXE_HTTP_FALLBACK_PORTS"))) _ (λ ports. a)))

  -- Where net.ParseIP returns nil or 16 bytes, a configuration that Load accepts with DHCP enabled has
  -- a range of IPv4 addresses in order, and an IPv4 server address.
  pub load-IsUsable :
      {c : PxeConfig}
      → load parse_ip ip_string host ≡ ok c
      → c.dhcp.enabled ≡ true
      → IsUsable c.dhcp
  load-IsUsable {c} e on = (rw e at load-Ensures) on

  module _ {Base : Type 0} (new_reply : Request → Option Base) where
    -- A server that starts from a configuration that Load accepted with DHCP enabled and a range that
    -- ends before 255.255.255.255, where net.ParseIP returns nil or 16 bytes, never has two leases in
    -- force for one address that belong to two clients, whatever lease time Load computed.
    pub loaded-NoConflict :
        {c : PxeConfig} {t₀ : ℕ} {h : Handler} {now : ℕ}
        → load parse_ip ip_string host ≡ ok c
        → c.dhcp.enabled ≡ true
        → value (to4 c.dhcp.range_end) < top
        → Run ip_string new_reply (new_server (dhcp_config c.dhcp)) t₀ h now
        → NoConflict h now
    loaded-NoConflict e on below run =
        let u = load-IsUsable e on in
        Run-NoConflict ip_string new_reply
          (record {
            start_v4 = u.start_v4;
            end_v4 = u.end_v4;
            ordered = u.ordered;
            end_below = below;
          })
          run
