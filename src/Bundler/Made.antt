-- ===== src/Bundler/Made.antt =====
-- services/bundler/bundler.go: the steps of Import on artifacts that Build made, with services that
-- accept everything.
use goosed.Support.{
  ℕ, ◌≡◌, ◌≢◌, refl, ap, ◌∙◌, true, false, some, List, [], ◌∷◌, ◌++◌, ==_iff, length, arith, All,
  ◌<◌,
}
use goosed.Support.Text.{Text, lit, text_eq_iff, text_eq_instance, equal_fold, to_lower}
use goosed.Support.Strconv.{pos}
use goosed.Support.Hex.{hex_encode, hex_decode-hex_encode}
use goosed.Support.Relative.{IsAbsolute, clean-IsPath}
use goosed.Support.Results.{ok}
use goosed.S3.{PutObjectInput, encode_sha256}
use goosed.Bundler.Manifest.{ManifestArtifact, Yaml}
use goosed.Bundler.Signer.{Crypto, is_nil}
use goosed.Bundler.Urls.{s3_url, parse_s3_url-s3_url}
use goosed.Bundler.Extract.{Extracted, Disk}
use goosed.Bundler.Build.{Files}
use goosed.Bundler.Unpacked.{join-artifacts, Carried}
use goosed.Bundler.Import.{
  Event, posted, put, Services, RegisterResponse, registered_url, stored, validate_artifact, upload,
  import_artifacts,
}

pub is_nil_ne : (b : List ℕ) → b ≢ [] → is_nil b ≡ false
is_nil_ne [] n = absurd (n refl)
is_nil_ne (x ∷ b) n = refl

-- Services that register every artifact, at a bucket and a key, and take every object.
pub record Willing (services : Services) : Type 0 where
  pub response : List Event → Text → ManifestArtifact → RegisterResponse
  pub answers :
      (t : List Event) (url : Text) (art : ManifestArtifact)
      → services.post t url art
        ≡ some (record { status = 201; response = some (response t url art) })
  pub bucket_ne :
      (t : List Event) (url : Text) (art : ManifestArtifact) → (response t url art).s3_bucket ≢ []
  pub key_ne :
      (t : List Event) (url : Text) (art : ManifestArtifact) → (response t url art).s3_key ≢ []
  pub bucket_plain :
      (t : List Event) (url : Text) (art : ManifestArtifact)
      → All (λ c. c ≢ 47) (response t url art).s3_bucket
  pub takes : (t : List Event) (i : PutObjectInput) → services.accepts t i ≡ true

module _ (sum : List ℕ → List ℕ) (crypto : Crypto) (yaml : Yaml)
    (sum_bytes : (b : List ℕ) → All (λ d. d < 256) (sum b))
    (sum_length : (b : List ℕ) → length (sum b) ≡ 32) where
  checksum_made :
      (content : List ℕ)
      → encode_sha256 crypto.encode (hex_encode (sum content)) ≡ some (crypto.encode (sum content))
  unfolding encode_sha256 hex_encode
  checksum_made content = of_digest (sum content) (sum_bytes content) (sum_length content)
    where
      of_digest :
          (d : List ℕ)
          → All (λ b. b < 256) d
          → length d ≡ 32
          → encode_sha256 crypto.encode (hex_encode d) ≡ some (crypto.encode d)
      of_digest [] h n = absurd (omega (arith, n))
      of_digest (b ∷ d) h n = rw (hex_decode-hex_encode (b ∷ d) h) refl

  validate_made :
      (content : List ℕ) (art : ManifestArtifact)
      → art.size ≡ pos (length content)
      → art.sha256 ≡ hex_encode (sum content)
      → validate_artifact sum crypto yaml content art ≡ ok content
  unfolding validate_artifact equal_fold
  validate_made content art s d =
      rw
        (
          s,
          d,
          (==_iff (length content) (length content)).1 refl,
          (text_eq_iff (to_lower (hex_encode (sum content)))
                (to_lower (hex_encode (sum content)))).1
              refl,
        )
        refl

  module _ (services : Services) (willing : Willing services) where
    registered_made :
        (t : List Event) (url : Text) (art : ManifestArtifact)
        → registered_url (services.post t url art)
          ≡ ok (s3_url (willing.response t url art).s3_bucket (willing.response t url art).s3_key)
    registered_made t url art =
        rw
          (
            willing.answers t url art,
            is_nil_ne _ (willing.bucket_ne t url art),
            is_nil_ne _ (willing.key_ne t url art),
          )
          refl

    upload_made :
        (base_url : Text) (art : ManifestArtifact) (content : List ℕ) (t : List Event)
        → art.sha256 ≡ hex_encode (sum content)
        → (t' : List Event) × (upload sum crypto yaml services base_url art content t ≡ (ok tt, t'))
    unfolding upload
    upload_made base_url art content t d =
        let url = base_url ++ lit "/v1/artifacts" in
        let r = willing.response t url art in
        let i : PutObjectInput = record {
          bucket = r.s3_bucket;
          key = r.s3_key;
          body = content;
          content_length = art.size;
          checksum_sha256 = crypto.encode (sum content);
          metadata_sha256 = art.sha256;
        } in
        (
          put i ∷ posted url art ∷ t,
          rw
              (
                registered_made t url art,
                parse_s3_url-s3_url r.s3_bucket r.s3_key (willing.bucket_ne t url art)
                    (willing.key_ne t url art) (willing.bucket_plain t url art),
                ap (encode_sha256 crypto.encode) d ∙ checksum_made content,
                willing.takes,
              )
              refl,
        )

    module _ (disk : Disk) (temp_dir : Text) (temp_absolute : IsAbsolute temp_dir)
        (creates : (x : Extracted) (path : Text) → disk.create x path ≡ true) (files : Files)
        (dir : Text) where
      stored_made :
          (x : Extracted) (art : ManifestArtifact)
          (c : Carried disk temp_dir temp_absolute creates sum files dir x art)
          → stored x art ≡ ok c.content
      unfolding stored
      stored_made x art c =
          rw
            (
              clean-IsPath art.path c.kept.of_path,
              join-artifacts art.path c.kept.of_path,
              c.held.of_name,
              c.held.of_temp,
            )
            refl

      pub import_artifacts_made :
          (base_url : Text) (x : Extracted) (arts : List ManifestArtifact) (t : List Event)
          → All (Carried disk temp_dir temp_absolute creates sum files dir x) arts
          → (t' : List Event) × (import_artifacts sum crypto yaml services base_url x arts t
              ≡ (ok tt, t'))
      unfolding import_artifacts
      import_artifacts_made base_url x [] t h = (t, refl)
      import_artifacts_made base_url x (art ∷ arts) t (c, h) =
          let (t1, e) = upload_made base_url art c.content t c.kept.of_digest in
          let (t2, g) = import_artifacts_made base_url x arts t1 h in
          (
            t2,
            rw (stored_made x art c, validate_made c.content art c.kept.of_size c.kept.of_digest, e)
                g,
          )
