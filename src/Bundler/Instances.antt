-- ===== src/Bundler/Instances.antt =====
-- Instances of the interfaces of the cryptography, for the tests.
use goosed.Support.{
  ℕ, zero, suc, ◌+◌, ◌-◌, ◌%◌, ◌<◌, ◌≡◌, ◌≢◌, refl, ◌∙◌, Bool, false, Option, some, List, [], ◌∷◌,
  ◌++◌, map, length, length-append, drop, arith, All,
}
use goosed.Support.Text.{
  Text, lit, text_eq, text_eq_iff, trim_space, trim_left, trim_right, is_space,
}
use goosed.Bundler.Signer.{Crypto}

abbrev pub encoded : List ℕ → Text
encoded bytes = map (λ b. b + 16384) bytes

abbrev pub decoded : Text → Option (List ℕ)
decoded text = some (map (λ c. c - 16384) text)

pub decoded-encoded : (b : List ℕ) → decoded (encoded b) ≡ some b
decoded-encoded [] = refl
decoded-encoded (c ∷ b) = ground (arith, decoded-encoded b)

pub encoded_ne : (b : List ℕ) → b ≢ [] → encoded b ≢ []
encoded_ne [] n h = n refl
encoded_ne (c ∷ b) n h = cc

is_space-encoded : (c : ℕ) → is_space (c + 16384) ≡ false
unfolding is_space
is_space-encoded c = ground arith

trim_right-encoded : (b : List ℕ) → trim_right (encoded b) ≡ encoded b
unfolding trim_right
trim_right-encoded [] = refl
trim_right-encoded (c ∷ []) = rw (is_space-encoded c) refl
trim_right-encoded (c ∷ d ∷ b) = rw (trim_right-encoded (d ∷ b)) refl

pub trim_space-encoded : (b : List ℕ) → trim_space (encoded b) ≡ encoded b
unfolding trim_space trim_left
trim_space-encoded [] = trim_right-encoded []
trim_space-encoded (c ∷ b) = rw (is_space-encoded c) (trim_right-encoded (c ∷ b))

abbrev pub signed_with : List ℕ → List ℕ → List ℕ
signed_with key m = map (λ b. b + length m) key

abbrev pub verifies : (key payload signature : List ℕ) → Bool
verifies key payload signature = text_eq (drop 32 signature) (map (λ b. b + length payload) key)

pub length-signed : (n : ℕ) (key : List ℕ) → length (map (λ b. b + n) key) ≡ length key
length-signed n [] = refl
length-signed n (b ∷ key) = omega (arith, length-signed n key)

pub drop-signed :
    (k n : ℕ) (key : List ℕ) → drop k (map (λ b. b + n) key) ≡ map (λ b. b + n) (drop k key)
drop-signed zero n key = refl
drop-signed (suc k) n [] = refl
drop-signed (suc k) n (b ∷ key) = drop-signed k n key

unfoldable pub test_crypto : Crypto
unfolding text_eq
test_crypto = record {
  key_from_seed = λ seed. seed ++ seed;
  sign_with = signed_with;
  verify_with = verifies;
  encode = encoded;
  decode = decoded;
  bech32_decode = λ secret. some (lit "age-secret-key-", secret);
  convert_bits = λ five. some five;
  recipient_of = λ secret. some secret;
  decode-encode = decoded-encoded;
  encode_ne = encoded_ne;
  trim_space-encode = trim_space-encoded;
  length-key_from_seed = λ seed h. omega (arith, h, length-append seed seed);
  length-sign_with = λ key m h. length-signed (length m) key ∙ h;
  verify_with-sign_with = λ seed m h.
      (text_eq_iff (drop 32 (signed_with (seed ++ seed) m)) _).1
        (drop-signed 32 (length m) (seed ++ seed));
}

-- A digest of 32 bytes, which is the length of the bytes.
abbrev pub repeated : ℕ → ℕ → List ℕ
repeated zero b = []
repeated (suc n) b = b ∷ repeated n b

abbrev pub test_sum : List ℕ → List ℕ
test_sum bytes = repeated 32 (length bytes % 256)

repeated-All : (n b : ℕ) → b < 256 → All (λ d. d < 256) (repeated n b)
repeated-All zero b h = tt
repeated-All (suc n) b h = (h, repeated-All n b h)

pub test_sum_bytes : (bytes : List ℕ) → All (λ d. d < 256) (test_sum bytes)
test_sum_bytes bytes = repeated-All 32 (length bytes % 256) (omega arith)

pub length-test_sum : (bytes : List ℕ) → length (test_sum bytes) ≡ 32
length-test_sum bytes = refl
