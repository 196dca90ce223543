-- ===== src/Bundler/Tests.antt =====
-- Runs of the signer and of the URLs, and their theorems at concrete inputs.
mod Imports
use goosed.Support.{ℕ, ◌+◌, ◌≡◌, refl, true, some, List, [], ◌∷◌, ◌++◌, ◌⊎◌, map}
use goosed.Support.Text.{
  Text, lit, text_eq, trim_space, trim_left, trim_right, is_space, equal_fold, to_lower, lower_rune,
}
use goosed.Support.Results.{ok}
use goosed.Bundler.Signer.{Signer, decode_age_secret_key, new_signer_from_env, sign, verify}
use goosed.Bundler.Verifying.{Signature, verify-own}
use goosed.Bundler.Instances.{test_crypto}

abbrev test_secret : Text
test_secret = lit "abcdefghijklmnopqrstuvwxyz012345"

abbrev test_signer : Signer
test_signer = record {
  private_key = test_secret ++ test_secret;
  public_key = test_secret;
  recipient = test_secret;
}

new_signer_run : new_signer_from_env test_crypto test_secret [] ≡ ok test_signer
unfolding new_signer_from_env decode_age_secret_key test_crypto equal_fold to_lower lower_rune
    text_eq trim_space trim_left trim_right is_space
new_signer_run = refl

abbrev test_signature : Text
test_signature = map (λ b. b + 16386) (test_secret ++ test_secret)

sign_run : sign test_crypto test_signer (1 ∷ 2 ∷ []) ≡ ok test_signature
unfolding sign test_crypto
sign_run = refl

verify_run : verify test_crypto test_signer (1 ∷ 2 ∷ []) test_signature [] ≡ ok tt
unfolding verify test_crypto trim_space trim_left trim_right is_space text_eq
verify_run = refl

verify-own_example :
    ((bytes : List ℕ) × Signature test_crypto test_signature bytes
      × (test_crypto.verify_with test_signer.public_key (1 ∷ 2 ∷ []) bytes ≡ true))
    × (◌≡◌ {A = Text} [] [] ⊎ (test_crypto.decode [] ≡ some test_signer.public_key))
verify-own_example =
    verify-own test_crypto test_secret [] (1 ∷ 2 ∷ []) test_signature [] new_signer_run verify_run
