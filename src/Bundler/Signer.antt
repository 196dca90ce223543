-- ===== src/Bundler/Signer.antt =====
-- services/bundler/signer.go. Ed25519, base64, bech32 and age are an interface with what they are
-- documented to do; a nil slice is the empty one.
use goosed.Support.{
  ℕ, ◌≡◌, ◌≢◌, Bool, true, false, ◌&&◌, Option, none, some, List, [], ◌∷◌, ◌==◌, if◌then◌else◌,
  length, drop,
}
use goosed.Support.Text.{Text, lit, text_eq, equal_fold, trim_space}
use goosed.Support.Results.{Result, ok, err}

pub record Crypto : Type 0 where
  -- ed25519.NewKeyFromSeed, Sign and Verify
  pub key_from_seed : List ℕ → List ℕ
  pub sign_with : List ℕ → List ℕ → List ℕ
  pub verify_with : (key payload signature : List ℕ) → Bool
  -- base64.StdEncoding
  pub encode : List ℕ → Text
  pub decode : Text → Option (List ℕ)
  -- bech32.Decode and ConvertBits, and the recipient of age.ParseX25519Identity
  pub bech32_decode : Text → Option (Text × List ℕ)
  pub convert_bits : List ℕ → Option (List ℕ)
  pub recipient_of : Text → Option Text
  pub decode-encode : (b : List ℕ) → decode (encode b) ≡ some b
  pub encode_ne : (b : List ℕ) → b ≢ [] → encode b ≢ []
  pub trim_space-encode : (b : List ℕ) → trim_space (encode b) ≡ encode b
  pub length-key_from_seed : (seed : List ℕ) → length seed ≡ 32 → length (key_from_seed seed) ≡ 64
  pub length-sign_with : (key m : List ℕ) → length key ≡ 64 → length (sign_with key m) ≡ 64
  pub verify_with-sign_with :
      (seed m : List ℕ)
      → length seed ≡ 32
      → verify_with (drop 32 (key_from_seed seed)) m (sign_with (key_from_seed seed) m) ≡ true

-- Signer
pub record Signer : Type 0 where
  pub private_key : List ℕ
  pub public_key : List ℕ
  pub recipient : Text

pub data SignerError : Type 0 where
  neither_key_set bad_secret bad_public_key keys_differ no_private_key : SignerError
  bad_signature bad_manifest_key unexpected_key no_public_key not_verified : SignerError

abbrev pub is_nil : List ℕ → Bool
is_nil [] = true
is_nil (b ∷ bs) = false

abbrev pub sized : ℕ → SignerError → Option (List ℕ) → Result SignerError (List ℕ)
sized n e none = err e
sized n e (some b) = if length b == n then ok b else err e

-- bytes.Equal
abbrev pub same_bytes : List ℕ → List ℕ → Bool
same_bytes a b = text_eq a b

module _ (crypto : Crypto) where
  abbrev pub with_hrp : Option (Text × List ℕ) → Result SignerError (List ℕ)
  with_hrp none = err bad_secret
  with_hrp (some (hrp, five)) =
      if equal_fold hrp (lit "age-secret-key-")
      then sized 32 bad_secret (crypto.convert_bits five)
      else err bad_secret

  -- decodeAgeSecretKey
  unfoldable pub decode_age_secret_key : Text → Result SignerError (List ℕ)
  unfolding equal_fold
  decode_age_secret_key raw = with_hrp (crypto.bech32_decode raw)

  abbrev or_empty : Option Text → Text
  or_empty none = []
  or_empty (some r) = r

  abbrev pub of_seed : Text → Result SignerError (List ℕ) → Result SignerError Signer
  of_seed secret (err e) = err e
  of_seed secret (ok seed) = ok (record {
    private_key = crypto.key_from_seed seed;
    public_key = drop 32 (crypto.key_from_seed seed);
    recipient = or_empty (crypto.recipient_of secret);
  })

  -- The signer of AGE_SECRET_KEY alone; an empty one where it is not set.
  abbrev pub of_secret : Text → Result SignerError Signer
  of_secret secret =
      if is_nil secret
      then ok (record { private_key = []; public_key = []; recipient = [] })
      else of_seed secret (decode_age_secret_key secret)

  abbrev pub check_key : Signer → Result SignerError (List ℕ) → Result SignerError Signer
  check_key s (err e) = err e
  check_key s (ok key) =
      if is_nil s.public_key
      then ok (record s { public_key = key })
      else if same_bytes s.public_key key
      then ok s
      else err keys_differ

  -- What AGE_PUBLIC_KEY adds to it.
  abbrev pub with_public : Text → Result SignerError Signer → Result SignerError Signer
  with_public pub_key (err e) = err e
  with_public pub_key (ok s) =
      if is_nil pub_key then ok s else check_key s (sized 32 bad_public_key (crypto.decode pub_key))

  abbrev pub keyed : Result SignerError Signer → Result SignerError Signer
  keyed (err e) = err e
  keyed (ok s) = if is_nil s.public_key then err no_public_key else ok s

  -- NewSignerFromEnv, of the values of the two variables
  unfoldable pub new_signer_from_env :
      (age_secret_key age_public_key : Text) → Result SignerError Signer
  unfolding trim_space text_eq decode_age_secret_key
  new_signer_from_env secret pub_key =
      if is_nil (trim_space secret) && is_nil (trim_space pub_key)
      then err neither_key_set
      else keyed (with_public (trim_space pub_key) (of_secret (trim_space secret)))

  -- Sign
  unfoldable pub sign : Signer → List ℕ → Result SignerError Text
  sign s payload =
      if is_nil s.private_key
      then err no_private_key
      else ok (crypto.encode (crypto.sign_with s.private_key payload))

  -- The key that Verify checks with: its own, or that of the manifest.
  abbrev pub choose_key : List ℕ → Result SignerError (List ℕ) → Result SignerError (List ℕ)
  choose_key own (err e) = err e
  choose_key own (ok decoded) =
      if is_nil own
      then ok decoded
      else if same_bytes own decoded
      then ok own
      else err unexpected_key

  abbrev pub key_for : List ℕ → Text → Result SignerError (List ℕ)
  key_for own manifest_key =
      if is_nil manifest_key
      then ok own
      else choose_key own (sized 32 bad_manifest_key (crypto.decode manifest_key))

  abbrev pub verify_key :
      List ℕ → List ℕ → Result SignerError (List ℕ) → Result SignerError (Unit {0})
  verify_key payload signature (err e) = err e
  verify_key payload signature (ok key) =
      if is_nil key
      then err no_public_key
      else if crypto.verify_with key payload signature
      then ok tt
      else err not_verified

  abbrev pub verify_signature :
      Signer → List ℕ → Text → Result SignerError (List ℕ) → Result SignerError (Unit {0})
  verify_signature s payload manifest_key (err e) = err e
  verify_signature s payload manifest_key (ok signature) =
      verify_key payload signature (key_for s.public_key manifest_key)

  -- Verify
  unfoldable pub verify :
      Signer → List ℕ → (signature manifest_key : Text) → Result SignerError (Unit {0})
  unfolding trim_space text_eq
  verify s payload signature manifest_key =
      verify_signature s payload manifest_key
        (sized 64 bad_signature (crypto.decode (trim_space signature)))

  -- PublicKeyBase64
  abbrev pub public_key_base64 : Signer → Text
  public_key_base64 s = if is_nil s.public_key then [] else crypto.encode s.public_key
