-- ===== src/Bundler/Signing.antt =====
-- services/bundler/signer.go: the keys of a signer, and signing.
use goosed.Support.{
  ℕ, zero, suc, ◌+◌, ◌≡◌, ◌≢◌, refl, sym, ap, true, false, ◌&&◌, Option, none, some, List, [], ◌∷◌,
  ◌⊎◌, inl, inr, ◌==◌, length, drop, arith, Bool-cases, ◌∙◌,
}
use goosed.Support.Text.{Text, lit, text_eq_iff, equal_fold, trim_space}
use goosed.Support.Results.{Result, ok, err, ok-injective}
use goosed.Bundler.Signer.{
  Crypto, Signer, SignerError, is_nil, sized, same_bytes, with_hrp, decode_age_secret_key, of_seed,
  of_secret, check_key, with_public, keyed, new_signer_from_env, sign, key_for, verify,
  public_key_base64, bad_secret,
}

pub length-drop : (n : ℕ) {m : ℕ} (b : List ℕ) → length b ≡ n + m → length (drop n b) ≡ m
length-drop zero b h = omega (arith, h)
length-drop (suc n) [] h = absurd (omega (arith, h))
length-drop (suc n) (x ∷ b) h = length-drop n b (omega (arith, h))

pub sized-ok :
    (n : ℕ) (e : SignerError) (o : Option (List ℕ)) {b : List ℕ}
    → sized n e o ≡ ok b
    → (o ≡ some b) × (length b ≡ n)
sized-ok n e none h = absurd (cc)
sized-ok n e (some c) h = elim (Bool-cases (length c == n)) [
  | inr m ↦ absurd (ground arith)
  | inl y ↦
      let same : c ≡ _ = ok-injective (rw y at h) in
      (ap some same, ap length (sym same) ∙ ground arith)
]

pub nonempty : (b : List ℕ) (n : ℕ) → length b ≡ suc n → is_nil b ≡ false
nonempty [] n h = absurd (omega arith)
nonempty (x ∷ b) n h = refl

module _ (crypto : Crypto) where
  -- The keys of a signer: a public key of 32 bytes, and the private key of it or none.
  pub record IsSigner (s : Signer) : Type 0 where
    pub length_public : length s.public_key ≡ 32
    pub pair :
        (s.private_key ≡ [])
        ⊎ ((seed : List ℕ) × (length seed ≡ 32)
            × (s.private_key ≡ crypto.key_from_seed seed)
            × (s.public_key ≡ drop 32 (crypto.key_from_seed seed)))

  -- What of_secret gives: no keys at all, or the keys of a seed.
  abbrev Started : Result SignerError Signer → Type 0
  Started (err e) = Unit {0}
  Started (ok s) = ((s.private_key ≡ []) × (s.public_key ≡ [])) ⊎ IsSigner s

  abbrev Finished : Result SignerError Signer → Type 0
  Finished (err e) = Unit {0}
  Finished (ok s) = IsSigner s

  of_seed-Started :
      (secret : Text) (r : Result SignerError (List ℕ))
      → ((seed : List ℕ) → r ≡ ok seed → length seed ≡ 32)
      → Started (of_seed crypto secret r)
  of_seed-Started secret (err e) h = tt
  of_seed-Started secret (ok seed) h = inr (record {
    length_public =
        length-drop 32 (crypto.key_from_seed seed) (crypto.length-key_from_seed seed (h seed refl));
    pair = inr (seed, h seed refl, refl, refl);
  })

  hrp_length :
      (o : Option (Text × List ℕ)) {seed : List ℕ} → with_hrp crypto o ≡ ok seed → length seed ≡ 32
  hrp_length none h = absurd (cc)
  hrp_length (some (hrp, five)) h = elim (Bool-cases (equal_fold hrp (lit "age-secret-key-"))) [
    | inl y ↦ (sized-ok 32 bad_secret (crypto.convert_bits five) (rw y at h)).1
    | inr n ↦ absurd (ground arith)
  ]

  of_secret-Started : (secret : Text) → Started (of_secret crypto secret)
  unfolding decode_age_secret_key
  of_secret-Started secret = elim (Bool-cases (is_nil secret)) [
    | inl y ↦ rw y (inl (refl, refl))
    | inr n ↦ rw n (
        of_seed-Started secret (decode_age_secret_key crypto secret)
          (λ seed h. hrp_length (crypto.bech32_decode secret) h))
  ]

  check_key-Started :
      (s : Signer) (r : Result SignerError (List ℕ))
      → Started (ok s)
      → ((key : List ℕ) → r ≡ ok key → length key ≡ 32)
      → Started (check_key crypto s r)
  check_key-Started s (err e) p h = tt
  check_key-Started s (ok key) (inr i) h = elim (Bool-cases (is_nil s.public_key)) [
    | inl y ↦ absurd (cc (nonempty s.public_key 31 i.length_public))
    | inr n ↦ elim (Bool-cases (same_bytes s.public_key key)) [
      | inl t ↦ rw (n, t) (inr i)
      | inr f ↦ rw (n, f) tt
    ]
  ]
  check_key-Started s (ok key) (inl (p, q)) h =
      rw q (inr (record { length_public = h key refl; pair = inl p }))

  with_public-Started :
      (pub_key : Text) (r : Result SignerError Signer)
      → Started r
      → Started (with_public crypto pub_key r)
  with_public-Started pub_key (err e) p = tt
  with_public-Started pub_key (ok s) p = elim (Bool-cases (is_nil pub_key)) [
    | inl y ↦ rw y p
    | inr n ↦ rw n (check_key-Started s _ p (λ key h. (sized-ok 32 _ (crypto.decode pub_key) h).1))
  ]

  keyed-Finished : (r : Result SignerError Signer) → Started r → Finished (keyed crypto r)
  keyed-Finished (err e) p = tt
  keyed-Finished (ok s) (inl (p, q)) = rw q tt
  keyed-Finished (ok s) (inr i) = rw (nonempty s.public_key 31 i.length_public) i

  new_signer-Finished :
      (secret pub_key : Text) → Finished (new_signer_from_env crypto secret pub_key)
  unfolding new_signer_from_env
  new_signer-Finished secret pub_key =
      elim (Bool-cases (is_nil (trim_space secret) && is_nil (trim_space pub_key))) [
        | inl y ↦ rw y tt
        | inr n ↦ rw n (
            keyed-Finished _
              (with_public-Started (trim_space pub_key) _ (of_secret-Started (trim_space secret))))
      ]

  pub new_signer-IsSigner :
      (secret pub_key : Text) {s : Signer}
      → new_signer_from_env crypto secret pub_key ≡ ok s
      → IsSigner s
  new_signer-IsSigner secret pub_key h = rw h at (new_signer-Finished secret pub_key)

  own_key :
      (s : Signer)
      → IsSigner s
      → key_for crypto s.public_key (crypto.encode s.public_key) ≡ ok s.public_key
  own_key s i = elim (Bool-cases (is_nil (crypto.encode s.public_key))) [
    | inl y ↦ rw y refl
    | inr n ↦
        rw
          (
            n,
            crypto.decode-encode s.public_key,
            i.length_public,
            nonempty s.public_key 31 i.length_public,
            (text_eq_iff s.public_key s.public_key).1 refl,
          )
          refl
  ]

  signed_with :
      (s : Signer) (payload : List ℕ) {signature : Text}
      → sign crypto s payload ≡ ok signature
      → (s.private_key ≢ []) × (signature ≡ crypto.encode (crypto.sign_with s.private_key payload))
  unfolding sign
  signed_with s payload h = elim (Bool-cases (is_nil s.private_key)) [
    | inl y ↦ absurd (ground arith)
    | inr n ↦ ((λ q. ground arith), sym (ok-injective (rw n at h)))
  ]

  verified :
      (s : Signer) (payload : List ℕ)
      → IsSigner s
      → (seed : List ℕ) → length seed ≡ 32
      → s.private_key ≡ crypto.key_from_seed seed
      → s.public_key ≡ drop 32 (crypto.key_from_seed seed)
      → verify crypto s payload
          (crypto.encode (crypto.sign_with s.private_key payload))
          (public_key_base64 crypto s)
        ≡ ok tt
  unfolding verify
  verified s payload i seed n p q =
      let bytes = crypto.sign_with s.private_key payload in
      let full : length s.private_key ≡ 64 = ap length p ∙ crypto.length-key_from_seed seed n in
      let good : crypto.verify_with s.public_key payload bytes ≡ true =
        rw (p, q) (crypto.verify_with-sign_with seed payload n) in
      rw
        (
          crypto.trim_space-encode bytes,
          crypto.decode-encode bytes,
          crypto.length-sign_with s.private_key payload full,
          nonempty s.public_key 31 i.length_public,
          own_key s i,
          nonempty s.public_key 31 i.length_public,
          good,
        )
        refl

  -- What a signer of the environment signs it verifies, with the manifest's copy of its own key.
  pub verify-sign :
      (secret pub_key : Text) (payload : List ℕ) {s : Signer} {signature : Text}
      → new_signer_from_env crypto secret pub_key ≡ ok s
      → sign crypto s payload ≡ ok signature
      → verify crypto s payload signature (public_key_base64 crypto s) ≡ ok tt
  verify-sign secret pub_key payload {s} h g =
      let i = new_signer-IsSigner secret pub_key h in
      let (private, t) = signed_with s payload g in
      elim i.pair [
        | inl q ↦ absurd (private q)
        | inr (seed, n, p, q) ↦ rw t (verified s payload i seed n p q)
      ]

  long_ne : (b : List ℕ) (n : ℕ) → length b ≡ suc n → b ≢ []
  long_ne [] n h g = omega (arith, h)
  long_ne (c ∷ b) n h g = cc

  pub sign_ne :
      (secret pub_key : Text) (payload : List ℕ) {s : Signer} {signature : Text}
      → new_signer_from_env crypto secret pub_key ≡ ok s
      → sign crypto s payload ≡ ok signature
      → signature ≢ []
  sign_ne secret pub_key payload {s} h g =
      let i = new_signer-IsSigner secret pub_key h in
      let (private, t) = signed_with s payload g in
      elim i.pair [
        | inl q ↦ absurd (private q)
        | inr (seed, n, p, q) ↦
            let full : length s.private_key ≡ 64 =
              ap length p ∙ crypto.length-key_from_seed seed n in
            rw t (
              crypto.encode_ne (crypto.sign_with s.private_key payload)
                (long_ne _ 63 (crypto.length-sign_with s.private_key payload full)))
      ]
