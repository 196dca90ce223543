-- ===== src/Bundler/RoundTrip.antt =====
-- services/bundler/bundler.go: an import of what Build wrote.
use goosed.Support.{
  some-injective, ℕ, ◌≡◌, refl, sym, ap, subst, ◌∙◌, Bool, true, Option, some, List, [], length,
  All, ◌<◌,
}
use goosed.Support.Text.{Text, lit, text_eq, text_eq_iff, text_eq_instance}
use goosed.Support.Paths.{clean}
use goosed.Support.Relative.{IsAbsolute}
use goosed.Support.Results.{ok}
use goosed.Bundler.Manifest.{Manifest, Yaml}
use goosed.Bundler.Signer.{Crypto, Signer, new_signer_from_env, verify}
use goosed.Bundler.Signing.{verify-sign, sign_ne}
use goosed.Bundler.Extract.{TarEntry, Extracted, Disk, extract, nothing_extracted}
use goosed.Bundler.Build.{BuildConfig, Files, WalkEntry, build}
use goosed.Bundler.Built.{Stable, Built}
use goosed.Bundler.Completed.{build-Built}
use goosed.Bundler.Unpacked.{Carried, extract-Unpacked}
use goosed.Bundler.Import.{
  Event, Services, ImportConfig, checked_manifest, trim_right_slash, checked_config, import_bundle,
}
use goosed.Bundler.Made.{is_nil_ne, Willing, import_artifacts_made}

module _ (sum : List ℕ → List ℕ) (crypto : Crypto) (yaml : Yaml)
    (sum_bytes : (b : List ℕ) → All (λ d. d < 256) (sum b))
    (sum_length : (b : List ℕ) → length (sum b) ≡ 32) (services : Services)
    (willing : Willing services) (disk : Disk) (temp_dir : Text)
    (temp_absolute : IsAbsolute temp_dir)
    (creates : (x : Extracted) (path : Text) → disk.create x path ≡ true) (files : Files)
    (dir : Text) (writes : List (Option TarEntry) → TarEntry → Bool) where
  checked_made :
      (secret pub_key : Text) (signer : Signer) (m : Manifest) (archive : List (Option TarEntry))
      → new_signer_from_env crypto secret pub_key ≡ ok signer
      → (b : Built sum files dir crypto yaml writes signer m archive)
      → checked_manifest sum crypto yaml signer b.bytes ≡ ok m
  unfolding checked_manifest
  checked_made secret pub_key signer m archive n b =
      let v : verify crypto signer b.payload m.signature m.signing_public_key ≡ ok tt =
        rw b.of_key (verify-sign crypto secret pub_key b.payload n b.of_signature) in
      rw
        (
          is_nil_ne b.bytes (yaml.marshal_ne m b.bytes b.of_bytes),
          yaml.unmarshal-marshal m b.bytes b.of_bytes,
          (text_eq_iff m.version (lit "1")).1 b.of_version,
          is_nil_ne m.signature (sign_ne crypto secret pub_key b.payload n b.of_signature),
          b.of_payload,
          v,
        )
        refl

  extract_made :
      (signer : Signer) (m : Manifest) (archive : List (Option TarEntry))
      → (b : Built sum files dir crypto yaml writes signer m archive)
      → (x : Extracted) × (extract disk temp_dir nothing_extracted archive ≡ ok x)
        × (x.manifest_bytes ≡ b.bytes)
        × All (Carried disk temp_dir temp_absolute creates sum files dir x) m.artifacts
  unfolding extract clean text_eq
  extract_made signer m archive b =
      let (x, e, u) =
        extract-Unpacked disk temp_dir temp_absolute creates sum files dir m.artifacts b.entries
          (record nothing_extracted { manifest_bytes = b.bytes }) b.of_entries in
      (x, rw b.of_archive e, u.same_manifest, u.carried)

  built :
      (from : BuildConfig) {signer : Signer} {walked : List WalkEntry} {m : Manifest}
      {archive : List (Option TarEntry)}
      → from.signer ≡ some signer
      → from.artifacts_dir ≡ dir
      → files.walk dir ≡ some walked
      → All (Stable sum files dir) walked
      → build sum crypto yaml writes files from [] ≡ (ok m, archive)
      → Built sum files dir crypto yaml writes signer m archive
  built from {signer} {walked} {m} {archive} f d w s h =
      let (other, g, b) =
        build-Built sum crypto yaml writes files from (ap files.walk d ∙ w)
          (subst (λ z. All (Stable sum files z) walked) (sym d) s) h in
      subst (λ z. Built sum files z crypto yaml writes signer m archive) d
        (subst (λ z. Built sum files from.artifacts_dir crypto yaml writes z m archive)
          (some-injective (sym g ∙ f)) b)

  -- A bundle that Build made, of a directory of files with clean paths that do not change while it
  -- runs, with a signer of the environment, is imported by the same signer if its archive is read
  -- back, a digest is 32 bytes, files can be made in the temporary directory, which has a clean absolute
  -- path, the configuration of the import passes its checks, and the services register every artifact
  -- with a bucket without a slash and a key, not empty, and take every object: Import then returns the
  -- manifest that Build returned.
  pub import_bundle-build :
      (open_bundle : Text → Option (List (Option TarEntry))) (parse_scheme : Text → Option Text)
      (allow_insecure : Bool) (secret pub_key : Text) (from : BuildConfig) (cfg : ImportConfig)
      {signer : Signer} {walked : List WalkEntry} {m : Manifest} {archive : List (Option TarEntry)}
      → new_signer_from_env crypto secret pub_key ≡ ok signer
      → from.signer ≡ some signer
      → from.artifacts_dir ≡ dir
      → files.walk dir ≡ some walked
      → All (Stable sum files dir) walked
      → build sum crypto yaml writes files from [] ≡ (ok m, archive)
      → checked_config sum crypto yaml disk open_bundle
          (some temp_dir)
          parse_scheme
          allow_insecure
          cfg
        ≡ ok tt
      → cfg.s3 ≡ some services
      → cfg.signer ≡ some signer
      → open_bundle cfg.bundle_path ≡ some archive
      → (t : List Event) × (import_bundle sum crypto yaml disk open_bundle
            (some temp_dir)
            parse_scheme
            allow_insecure
            cfg
            []
          ≡ (ok m, t))
  unfolding import_bundle
  import_bundle-build open_bundle parse_scheme allow_insecure secret pub_key from cfg {signer}
        {walked} {m} {archive} n f d w s h c v g o =
      let b = built from f d w s h in
      let (x, e, bytes, carried) = extract_made signer m archive b in
      let (t, sent) =
        import_artifacts_made sum crypto yaml sum_bytes sum_length services willing disk temp_dir
          temp_absolute creates files dir (trim_right_slash cfg.api_base_url) x m.artifacts []
          carried in
      let checked : checked_manifest sum crypto yaml signer x.manifest_bytes ≡ ok m =
        rw bytes (checked_made secret pub_key signer m archive n b) in
      (t, rw (c, v, g, o, e, checked, sent) refl)
