-- ===== src/Bundler/Completed.antt =====
-- services/bundler/bundler.go: Build as a whole, of a directory whose files do not change while it runs.
use goosed.Support.{
  some-injective, ℕ, ◌≡◌, refl, sym, ap, subst, ◌∙◌, Bool, Option, some, List, [], ◌∷◌, ◌++◌, arith,
  Bool-cases, All, inl, inr,
}
use goosed.Support.Text.{Text, lit}
use goosed.Support.Results.{
  or_else, or_else-ok, Result, ok, err, ok-injective, ok_ne_err, and_then-ok,
}
use goosed.Bundler.Manifest.{ManifestArtifact, Manifest, Yaml, signing_bytes}
use goosed.Bundler.Signer.{Crypto, Signer, SignerError, is_nil, sign, public_key_base64}
use goosed.Bundler.Extract.{TarEntry}
use goosed.Bundler.Build.{
  BuildConfig, Files, WalkEntry, not_marshalled, not_a_directory, manifest_entry, collect_artifacts,
  read_images_file, write_entry, write_bundle, some_artifacts, unsigned, signature_of, written,
  sign_and_write, checked_config, build, signer_required,
}
use goosed.Bundler.Built.{
  lift-ok, pair_of, Stable, IsKept, Archived, collect_artifacts-IsKept, some_artifacts-IsKept,
  write_entry_ok, write_artifacts-Archived, Built,
}

module _ (sum : List ℕ → List ℕ) (crypto : Crypto) (yaml : Yaml)
    (writes : List (Option TarEntry) → TarEntry → Bool) (files : Files) where
  checked_config-ok :
      (cfg : BuildConfig) {signer : Signer}
      → checked_config sum crypto yaml writes files cfg ≡ ok signer
      → cfg.signer ≡ some signer
  checked_config-ok cfg h = elim (Bool-cases (is_nil cfg.artifacts_dir)) [
    | inl y ↦ absurd (ground arith)
    | inr n ↦ elim (Bool-cases (is_nil cfg.output)) [
      | inl y ↦ absurd (ground arith)
      | inr o ↦ or_else-ok signer_required cfg.signer (rw (n, o) at h)
    ]
  ]

  signature_of-ok :
      (r : Result SignerError Text) {signature : Text}
      → signature_of sum crypto yaml writes files r ≡ ok signature
      → r ≡ ok signature
  signature_of-ok (err e) h = absurd (cc)
  signature_of-ok (ok s) h = ap ok (ok-injective h)

  module _ (cfg : BuildConfig) where
    bundle-Archived :
        (arts : List ManifestArtifact) (bytes : List ℕ) {u : Unit {0}}
        {archive : List (Option TarEntry)}
        → All (IsKept sum files cfg.artifacts_dir) arts
        → write_bundle writes files cfg.output bytes cfg.artifacts_dir arts [] ≡ (ok u, archive)
        → (entries : List (Option TarEntry)) × Archived sum files cfg.artifacts_dir arts entries
          × (archive ≡ some (manifest_entry bytes) ∷ entries)
    unfolding write_bundle
    bundle-Archived arts bytes k h = elim (Bool-cases (files.create cfg.output)) [
      | inr n ↦ absurd (ok_ne_err (sym (ap (λ r. r.0) (rw n at h))))
      | inl y ↦
          let (v, w, g) =
            and_then-ok (write_entry writes (manifest_entry bytes) []) _ (rw y at h) in
          let (entries, rest, same) =
            write_artifacts-Archived sum files cfg.artifacts_dir crypto yaml writes arts _ k g in
          (
            entries,
            rest,
            same
                ∙ ap (λ z. z ++ entries)
                    (write_entry_ok sum files cfg.artifacts_dir crypto yaml writes
                      (manifest_entry bytes) [] (pair_of _ w)),
          )
    ]

    written-Archived :
        (m : Manifest) (bytes : List ℕ) {m' : Manifest} {archive : List (Option TarEntry)}
        → All (IsKept sum files cfg.artifacts_dir) m.artifacts
        → written sum crypto yaml writes files cfg m bytes [] ≡ (ok m', archive)
        → (m ≡ m')
          × (entries : List (Option TarEntry)) × Archived sum files cfg.artifacts_dir m.artifacts
              entries
          × (archive ≡ some (manifest_entry bytes) ∷ entries)
    written-Archived m bytes k h =
        let (u, w, g) =
          and_then-ok (write_bundle writes files cfg.output bytes cfg.artifacts_dir m.artifacts [])
            _ h in
        let (entries, rest, same) = bundle-Archived m.artifacts bytes k (pair_of _ w) in
        (ok-injective (ap (λ r. r.0) g), entries, rest, sym (ap (λ r. r.1) g) ∙ same)

    signed-Built :
        (signer : Signer) (m : Manifest) {m' : Manifest} {archive : List (Option TarEntry)}
        → All (IsKept sum files cfg.artifacts_dir) m.artifacts
        → m.version ≡ lit "1"
        → m.signing_public_key ≡ public_key_base64 crypto signer
        → sign_and_write sum crypto yaml writes files cfg signer m [] ≡ (ok m', archive)
        → Built sum files cfg.artifacts_dir crypto yaml writes signer m' archive
    signed-Built signer m {archive = archive} k v p h =
        let (payload, s, h1) = lift-ok (or_else not_marshalled (signing_bytes yaml m)) _ h in
        let (signature, g, h2) =
          lift-ok (signature_of sum crypto yaml writes files (sign crypto signer payload)) _ h1 in
        let named : Manifest = record m { signature = signature } in
        let (bytes, b, h3) = lift-ok (or_else not_marshalled (yaml.marshal named)) _ h2 in
        let (same, entries, a, c) = written-Archived named bytes k h3 in
        subst (λ z. Built sum files cfg.artifacts_dir crypto yaml writes signer z archive) same
          (record {
            of_version = v;
            of_key = p;
            payload = payload;
            of_payload = or_else-ok not_marshalled (signing_bytes yaml m) s;
            of_signature = signature_of-ok (sign crypto signer payload) g;
            bytes = bytes;
            of_bytes = or_else-ok not_marshalled (yaml.marshal named) b;
            entries = entries;
            of_entries = a;
            of_archive = c;
          })

    -- A build that succeeds has signed its manifest, and has written to the archive the manifest and
    -- then every artifact of it.
    pub build-Built :
        {m : Manifest} {archive : List (Option TarEntry)} {walked : List WalkEntry}
        → files.walk cfg.artifacts_dir ≡ some walked
        → All (Stable sum files cfg.artifacts_dir) walked
        → build sum crypto yaml writes files cfg [] ≡ (ok m, archive)
        → (signer : Signer) × (cfg.signer ≡ some signer)
          × Built sum files cfg.artifacts_dir crypto yaml writes signer m archive
    unfolding build
    build-Built {walked = walked} w s h =
        let (signer, c, h1) = lift-ok (checked_config sum crypto yaml writes files cfg) _ h in
        let (entries, e, h2) =
          lift-ok (or_else not_a_directory (files.walk cfg.artifacts_dir)) _ h1 in
        let (found, f, h3) = lift-ok (collect_artifacts sum [] entries) _ h2 in
        let (arts, a, h4) = lift-ok (some_artifacts sum crypto yaml writes files found) _ h3 in
        let (images, i, h5) = lift-ok (read_images_file files.read_file cfg.images_file) _ h4 in
        let walked_same : walked ≡ entries =
          some-injective (sym w ∙ or_else-ok not_a_directory (files.walk cfg.artifacts_dir) e) in
        let kept =
          collect_artifacts-IsKept sum files cfg.artifacts_dir [] entries tt
            (subst (All (Stable sum files cfg.artifacts_dir)) walked_same s) f in
        (
          signer,
          checked_config-ok cfg c,
          signed-Built signer (unsigned sum crypto yaml writes files cfg signer images arts)
              (some_artifacts-IsKept sum files cfg.artifacts_dir crypto yaml writes found kept a)
              refl refl h5,
        )
