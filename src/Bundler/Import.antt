-- ===== src/Bundler/Import.antt =====
-- services/bundler/bundler.go: Import, validateArtifact and registerArtifact. The trace has what was
-- sent to the API and to S3, the newest first. The context is taken not to be cancelled.
use goosed.Support.{
  ℕ, Bool, false, Option, none, some, List, [], ◌∷◌, ◌++◌, ◌==◌, if◌then◌else◌, length, reverse,
}
use goosed.Support.Text.{Text, lit, text_eq, text_eq_instance, equal_fold}
use goosed.Support.Maps.{lookup}
use goosed.Support.Strconv.{ℤ, pos, negsuc}
use goosed.Support.Hex.{hex_encode}
use goosed.Support.Paths.{clean, join}
use goosed.Support.Results.{lift, or_else, Result, ok, err, Method, return, ◌>>=◌, ◌>>◌}
use goosed.S3.{PutObjectInput, put_object}
use goosed.Bundler.Manifest.{ManifestArtifact, Manifest, Yaml, signing_bytes}
use goosed.Bundler.Signer.{Crypto, Signer, SignerError, is_nil, verify}
use goosed.Bundler.Urls.{UrlError, parse_s3_url, s3_url, ensure_https}
use goosed.Bundler.Extract.{
  ImportError, TarEntry, Extracted, Disk, extract, nothing_extracted, bundle_required,
  base_url_required, base_url_refused, s3_required, signer_required, bundle_not_opened, no_temp_dir,
  manifest_missing, bad_manifest, unsupported_version, signature_missing, not_marshalled, refused,
  artifact_missing, temp_not_read, size_mismatch, sha256_mismatch, post_failed, register_failed,
  bad_response, url_missing, bad_artifact_url, bad_digest, put_failed,
}

pub data Event : Type 0 where
  posted : (url : Text) → ManifestArtifact → Event
  put : PutObjectInput → Event

pub record RegisterResponse : Type 0 where
  pub artifact_url : Text
  pub s3_bucket : Text
  pub s3_key : Text

pub record Reply : Type 0 where
  pub status : ℕ
  pub response : Option RegisterResponse

-- The two services, which may answer by all that was sent before.
pub record Services : Type 0 where
  pub post : List Event → Text → ManifestArtifact → Option Reply
  pub accepts : List Event → PutObjectInput → Bool

pub record ImportConfig : Type 0 where
  pub bundle_path : Text
  pub api_base_url : Text
  pub s3 : Option Services
  pub signer : Option Signer

abbrev pub Step : Type 0 → Type 0
Step A = Method (List Event) ImportError A

abbrev pub trim_slashes : Text → Text
trim_slashes [] = []
trim_slashes (c ∷ s) = let rest = trim_slashes s in if c == 47 then rest else c ∷ s

-- strings.TrimRight(s, "/")
abbrev pub trim_right_slash : Text → Text
trim_right_slash s = reverse (trim_slashes (reverse s))

abbrev response_url : Option RegisterResponse → Result ImportError Text
response_url none = err bad_response
response_url (some r) =
    if is_nil r.s3_bucket
    then if is_nil r.artifact_url then err url_missing else ok r.artifact_url
    else if is_nil r.s3_key
    then if is_nil r.artifact_url then err url_missing else ok r.artifact_url
    else ok (s3_url r.s3_bucket r.s3_key)

abbrev pub registered_url : Option Reply → Result ImportError Text
registered_url none = err post_failed
registered_url (some r) = if r.status == 201 then response_url r.response else err register_failed

abbrev pub s3_location : Result UrlError (Text × Text) → Result ImportError (Text × Text)
s3_location (err e) = err bad_artifact_url
s3_location (ok p) = ok p

abbrev pub same_size : ℕ → ℤ → Bool
same_size n (pos m) = n == m
same_size n (negsuc m) = false

abbrev read_temp : Extracted → Option Text → Result ImportError (List ℕ)
read_temp x none = err artifact_missing
read_temp x (some path) = or_else temp_not_read (lookup path x.temp)

-- The bytes of the temporary file of an artifact.
unfoldable pub stored : Extracted → ManifestArtifact → Result ImportError (List ℕ)
unfolding clean join lookup text_eq
stored x art = read_temp x (lookup (join (lit "artifacts") (clean art.path)) x.files)

module _ (sum : List ℕ → List ℕ) (crypto : Crypto) (yaml : Yaml) where
  -- validateArtifact, of the bytes of the file
  unfoldable pub validate_artifact : List ℕ → ManifestArtifact → Result ImportError (List ℕ)
  unfolding hex_encode equal_fold
  validate_artifact body art =
      if same_size (length body) art.size
      then if equal_fold (hex_encode (sum body)) art.sha256 then ok body else err sha256_mismatch
      else err size_mismatch

  abbrev pub validated :
      Result ImportError (List ℕ) → ManifestArtifact → Result ImportError (List ℕ)
  validated (err e) art = err e
  validated (ok body) art = validate_artifact body art

  module _ (services : Services) where
    -- registerArtifact
    abbrev pub register_artifact : Text → ManifestArtifact → Step Text
    register_artifact base_url art t =
        let url = base_url ++ lit "/v1/artifacts" in
        (registered_url (services.post t url art), posted url art ∷ t)

    abbrev pub send_object : PutObjectInput → Step (Unit {0})
    send_object input t =
        (if services.accepts t input then ok tt else err put_failed, put input ∷ t)

    abbrev pub put_artifact : List ℕ → ManifestArtifact → Text × Text → Step (Unit {0})
    put_artifact body art (bucket, key) =
        put_object crypto.encode send_object bad_digest bucket key body art.size art.sha256

    -- The body of the loop of Import over the artifacts, of the validated file.
    unfoldable pub upload : Text → ManifestArtifact → List ℕ → Step (Unit {0})
    unfolding parse_s3_url
    upload base_url art body = register_artifact base_url art >>= λ url.
        lift (s3_location (parse_s3_url url)) >>= λ location. put_artifact body art location

    unfoldable pub import_artifacts : Text → Extracted → List ManifestArtifact → Step (Unit {0})
    unfolding upload stored validate_artifact
    import_artifacts base_url x [] = return tt
    import_artifacts base_url x (art ∷ arts) =
        lift (validated (stored x art) art)
        >>= (λ body. upload base_url art body)
        >> import_artifacts base_url x arts

  abbrev pub verified : Manifest → Result SignerError (Unit {0}) → Result ImportError Manifest
  verified m (err e) = err (refused e)
  verified m (ok u) = ok m

  abbrev pub verified_payload : Signer → Manifest → Option (List ℕ) → Result ImportError Manifest
  verified_payload s m none = err not_marshalled
  verified_payload s m (some payload) =
      verified m (verify crypto s payload m.signature m.signing_public_key)

  abbrev pub verified_manifest : Signer → Option Manifest → Result ImportError Manifest
  verified_manifest s none = err bad_manifest
  verified_manifest s (some m) =
      if text_eq m.version (lit "1")
      then if is_nil m.signature
        then err signature_missing
        else verified_payload s m (signing_bytes yaml m)
      else err unsupported_version

  -- Import from the check of manifestBytes to Verify
  unfoldable pub checked_manifest : Signer → List ℕ → Result ImportError Manifest
  unfolding text_eq verify
  checked_manifest s bytes =
      if is_nil bytes then err manifest_missing else verified_manifest s (yaml.unmarshal bytes)

  module _ (disk : Disk) (open_bundle : Text → Option (List (Option TarEntry)))
      (mkdir_temp : Option Text) (parse_scheme : Text → Option Text) (allow_insecure : Bool) where
    -- The entries of the archive, in the temporary directory.
    abbrev pub extracted :
        Option (List (Option TarEntry)) → Option Text → Result ImportError Extracted
    extracted none temp_dir = err bundle_not_opened
    extracted (some entries) none = err no_temp_dir
    extracted (some entries) (some temp_dir) = extract disk temp_dir nothing_extracted entries

    abbrev pub import_manifest : Services → Text → Extracted → Manifest → Step Manifest
    import_manifest services base_url x m =
        import_artifacts services base_url x m.artifacts >> return m

    abbrev pub import_extracted : Services → Signer → Text → Extracted → Step Manifest
    import_extracted services signer base_url x =
        lift (checked_manifest signer x.manifest_bytes) >>= import_manifest services base_url x

    abbrev refuse_url : Result UrlError (Unit {0}) → Result ImportError (Unit {0})
    refuse_url (err e) = err base_url_refused
    refuse_url (ok u) = ok tt

    -- The checks of the configuration.
    abbrev pub checked_config : ImportConfig → Result ImportError (Unit {0})
    checked_config cfg =
        if is_nil cfg.bundle_path
        then err bundle_required
        else if is_nil cfg.api_base_url
        then err base_url_required
        else refuse_url (ensure_https parse_scheme cfg.api_base_url allow_insecure)

    -- Import
    unfoldable pub import_bundle : ImportConfig → Step Manifest
    unfolding ensure_https extract import_artifacts checked_manifest
    import_bundle cfg = lift (checked_config cfg) >>= λ u.
        lift (or_else s3_required cfg.s3) >>= λ services.
        lift (or_else signer_required cfg.signer) >>= λ signer.
        lift (extracted (open_bundle cfg.bundle_path) mkdir_temp) >>= λ x.
        import_extracted services signer (trim_right_slash cfg.api_base_url) x
