-- ===== src/Bundler/Manifest.antt =====
-- services/bundler/manifest.go. yaml.Marshal and yaml.Unmarshal are an interface; a time is a number
-- of seconds, as Build truncates it.
use goosed.Support.{ℕ, ◌≡◌, ◌≢◌, List, [], Option, some}
use goosed.Support.Text.{Text}
use goosed.Support.Strconv.{ℤ}

-- ManifestArtifact
pub record ManifestArtifact : Type 0 where
  pub path : Text
  pub kind : Text
  pub size : ℤ
  pub sha256 : Text

-- Manifest
pub record Manifest : Type 0 where
  pub version : Text
  pub created_at : ℕ
  pub signer : Text
  pub signing_public_key : Text
  pub signature : Text
  pub images : List Text
  pub artifacts : List ManifestArtifact

-- The two functions of the YAML package, where a marshalled manifest is not empty and reads back
-- as it was.
pub record Yaml : Type 0 where
  pub marshal : Manifest → Option (List ℕ)
  pub unmarshal : List ℕ → Option Manifest
  pub unmarshal-marshal :
      (m : Manifest) (bytes : List ℕ) → marshal m ≡ some bytes → unmarshal bytes ≡ some m
  pub marshal_ne : (m : Manifest) (bytes : List ℕ) → marshal m ≡ some bytes → bytes ≢ []

-- Manifest.SigningBytes
abbrev pub signing_bytes : Yaml → Manifest → Option (List ℕ)
signing_bytes yaml m = yaml.marshal (record m { signature = [] })
