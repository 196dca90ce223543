-- ===== src/Artifacts.antt =====
-- services/artifacts-gw/presign.go: handleGetPresign. PresignGet of the S3 client is a parameter, of
-- the bucket, the key and the lifetime in nanoseconds.
use goosed.Support.{
  ℕ, zero, suc, ◌*◌, ◌≤◌, ◌≡◌, refl, Bool, true, false, not, Option, none, some, List, [], ◌∷◌,
  if◌then◌else◌, ltb, inl, inr, arith, Bool-cases,
}
use goosed.Support.Text.{Text, lit, text_eq, text_eq_iff, trim_space}
use goosed.Support.Strconv.{ℤ, pos, negsuc, atoi}
use goosed.Config.Env.{is_unset}
mod Tests

-- The request: its method and its query parameters, "" where missing.
pub record PresignRequest : Type 0 where
  pub method : Text
  pub key : Text
  pub ttl : Text

pub data PresignResponse : Type 0 where
  failed : ℕ → PresignResponse
  presigned : Text → PresignResponse

abbrev default_ttl_seconds : ℕ
default_ttl_seconds = 300

abbrev max_ttl_seconds : ℕ
max_ttl_seconds = 3600

abbrev bounded : Option ℤ → Option ℕ
bounded none = none
bounded (some (negsuc n)) = none
bounded (some (pos zero)) = none
bounded (some (pos (suc n))) = some (if ltb max_ttl_seconds (suc n) then max_ttl_seconds else suc n)

-- The lifetime in seconds that a request gets, none where it is refused.
unfoldable pub ttl_seconds : Text → Option ℕ
unfolding atoi trim_space
ttl_seconds raw =
    if is_unset (trim_space raw) then some default_ttl_seconds else bounded (atoi (trim_space raw))

module _ (presign_get : Text → Text → ℕ → Option Text) (bucket : Text) where
  abbrev encoded : Option Text → PresignResponse
  encoded none = failed 500
  encoded (some url) = presigned url

  abbrev presign : Text → Option ℕ → PresignResponse
  presign key none = failed 400
  presign key (some seconds) = encoded (presign_get bucket key (seconds * 1000000000))

  -- handleGetPresign
  unfoldable pub handle_get_presign : PresignRequest → PresignResponse
  unfolding text_eq trim_space ttl_seconds
  handle_get_presign r =
      if not (text_eq r.method (lit "GET"))
      then failed 405
      else if is_unset (trim_space r.key)
      then failed 400
      else presign (trim_space r.key) (ttl_seconds r.ttl)

  bounded_lem : (o : Option ℤ) (n : ℕ) → bounded o ≡ some n → (1 ≤ n) × (n ≤ 3600)
  bounded_lem none n e = absurd (cc)
  bounded_lem (some (negsuc m)) n e = absurd (cc)
  bounded_lem (some (pos zero)) n e = absurd (cc)
  bounded_lem (some (pos (suc m))) n e = (ground arith, ground arith)

  ttl_seconds_lem : (raw : Text) (n : ℕ) → ttl_seconds raw ≡ some n → (1 ≤ n) × (n ≤ 3600)
  unfolding ttl_seconds
  ttl_seconds_lem raw n e = elim (Bool-cases (is_unset (trim_space raw))) [
    | inl y ↦ (ground arith, ground arith)
    | inr m ↦ bounded_lem (atoi (trim_space raw)) n (rw m at e)
  ]

  presign_lem :
      (key : Text) (o : Option ℕ) {url : Text}
      → presign key o ≡ presigned url
      → (n : ℕ) × (o ≡ some n) × (presign_get bucket key (n * 1000000000) ≡ some url)
  presign_lem key none e = absurd (cc)
  presign_lem key (some n) {url} e = go (presign_get bucket key (n * 1000000000)) refl
    where
      go :
          (u : Option Text)
          → presign_get bucket key (n * 1000000000) ≡ u
          → (m : ℕ) × (◌≡◌ {A = Option ℕ} (some n) (some m))
            × (presign_get bucket key (m * 1000000000) ≡ some url)
      go none f = absurd (ground arith)
      go (some v) f = (n, refl, ground arith)

  -- A URL is given only for a GET, and is presigned for the key of the request without space around
  -- it, which is not empty, and for a lifetime between one second and an hour.
  pub handle_get_presign_lem :
      (r : PresignRequest) {url : Text}
      → handle_get_presign r ≡ presigned url
      → (r.method ≡ lit "GET")
        × (is_unset (trim_space r.key) ≡ false)
        × ((n : ℕ) × (1 ≤ n)
            × (n ≤ 3600)
            × (presign_get bucket (trim_space r.key) (n * 1000000000) ≡ some url))
  unfolding handle_get_presign
  handle_get_presign_lem r e = elim (Bool-cases (text_eq r.method (lit "GET"))) [
    | inr n ↦ absurd (ground arith)
    | inl y ↦ elim (Bool-cases (is_unset (trim_space r.key))) [
      | inl k ↦ absurd (ground arith)
      | inr k ↦
          let (n, t, p) = presign_lem (trim_space r.key) (ttl_seconds r.ttl) (rw (y, k) at e) in
          let (low, high) = ttl_seconds_lem r.ttl n t in
          ((text_eq_iff r.method (lit "GET")).0 y, k, (n, low, high, p))
    ]
  ]
