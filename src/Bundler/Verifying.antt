-- ===== src/Bundler/Verifying.antt =====
-- services/bundler/signer.go: which signatures Verify accepts.
use goosed.Support.{
  ℕ, ◌≡◌, refl, sym, ap, subst, true, false, some, List, [], ◌∷◌, ◌⊎◌, inl, inr, length, arith,
  Bool-cases,
}
use goosed.Support.Text.{Text, text_eq_iff, trim_space}
use goosed.Support.Results.{Result, ok, err, ok-injective}
use goosed.Bundler.Signer.{
  Crypto, Signer, SignerError, is_nil, same_bytes, new_signer_from_env, key_for, choose_key,
  verify_key, verify_signature, verify,
}
use goosed.Bundler.Signing.{sized-ok, nonempty, new_signer-IsSigner}

module _ (crypto : Crypto) where
  -- The signature bytes of a text.
  abbrev pub Signature : Text → List ℕ → Type 0
  Signature signature bytes =
      (crypto.decode (trim_space signature) ≡ some bytes) × (length bytes ≡ 64)

  chosen :
      (own : List ℕ) (r : Result SignerError (List ℕ)) {key : List ℕ}
      → is_nil own ≡ false
      → choose_key crypto own r ≡ ok key
      → (key ≡ own) × (r ≡ ok own)
  chosen own (err e) n h = absurd (cc)
  chosen own (ok decoded) n h = elim (Bool-cases (same_bytes own decoded)) [
    | inr f ↦ absurd (ground arith)
    | inl y ↦ (sym (ok-injective (rw (n, y) at h)), ap ok (sym ((text_eq_iff own decoded).0 y)))
  ]

  key_for-own :
      (own : List ℕ) (manifest_key : Text) {key : List ℕ}
      → is_nil own ≡ false
      → key_for crypto own manifest_key ≡ ok key
      → (key ≡ own) × ((manifest_key ≡ []) ⊎ (crypto.decode manifest_key ≡ some own))
  key_for-own own [] n h = (sym (ok-injective h), inl refl)
  key_for-own own (c ∷ k) n h =
      let (p, q) = chosen own _ n h in (p, inr (sized-ok 32 _ (crypto.decode (c ∷ k)) q).0)

  verify_key-ok :
      (payload bytes : List ℕ) (r : Result SignerError (List ℕ))
      → verify_key crypto payload bytes r ≡ ok tt
      → (key : List ℕ) × (r ≡ ok key) × (crypto.verify_with key payload bytes ≡ true)
  verify_key-ok payload bytes (err e) h = absurd (cc)
  verify_key-ok payload bytes (ok key) h = (key, refl, ground arith)

  verify_signature-ok :
      (s : Signer) (payload : List ℕ) (manifest_key : Text) (r : Result SignerError (List ℕ))
      → verify_signature crypto s payload manifest_key r ≡ ok tt
      → (bytes : List ℕ) × (r ≡ ok bytes)
        × (verify_key crypto payload bytes (key_for crypto s.public_key manifest_key) ≡ ok tt)
  verify_signature-ok s payload manifest_key (err e) h = absurd (cc)
  verify_signature-ok s payload manifest_key (ok bytes) h = (bytes, refl, h)

  -- A signer of the environment accepts a signature only if it is 64 bytes that verify under the
  -- signer's own public key, whatever key the manifest carries; and only if that is this key or none.
  pub verify-own :
      (secret pub_key : Text) (payload : List ℕ) (signature manifest_key : Text) {s : Signer}
      → new_signer_from_env crypto secret pub_key ≡ ok s
      → verify crypto s payload signature manifest_key ≡ ok tt
      → ((bytes : List ℕ) × Signature signature bytes
          × (crypto.verify_with s.public_key payload bytes ≡ true))
        × ((manifest_key ≡ []) ⊎ (crypto.decode manifest_key ≡ some s.public_key))
  unfolding verify
  verify-own secret pub_key payload signature manifest_key {s} h v =
      let i = new_signer-IsSigner crypto secret pub_key h in
      let (bytes, d, k) = verify_signature-ok s payload manifest_key _ v in
      let (key, c, good) = verify_key-ok payload bytes _ k in
      let (same, origin) =
        key_for-own s.public_key manifest_key (nonempty s.public_key 31 i.length_public) c in
      (
        (
          bytes,
          sized-ok 64 _ (crypto.decode (trim_space signature)) d,
          subst (λ z. crypto.verify_with z payload bytes ≡ true) same good,
        ),
        origin,
      )
