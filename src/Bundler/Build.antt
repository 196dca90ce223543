-- ===== src/Bundler/Build.antt =====
-- services/bundler/bundler.go: Build, collectArtifacts, readImagesFile and writeBundle. What WalkDir
-- visits and what a file has are parameters. The context is taken not to be cancelled.
use goosed.Support.{
  ℕ, Bool, true, false, Option, none, some, List, [], ◌∷◌, ◌++◌, ◌==◌, ltb, if◌then◌else◌, length,
}
use goosed.Support.Text.{Text, lit, trim_space}
use goosed.Support.Strconv.{pos}
use goosed.Support.Hex.{hex_encode}
use goosed.Support.Paths.{join}
use goosed.Support.Results.{lift, or_else, Result, ok, err, Method, return, fail, ◌>>=◌, ◌>>◌}
use goosed.Bundler.Manifest.{ManifestArtifact, Manifest, Yaml, signing_bytes}
use goosed.Bundler.Signer.{Crypto, Signer, SignerError, is_nil, sign, public_key_base64}
use goosed.Bundler.Urls.{infer_kind, image_lines}
use goosed.Bundler.Extract.{TarEntry, type_reg}

pub data BuildError : Type 0 where
  artifacts_dir_required output_required signer_required not_a_directory walk_failed file_not_read :
      BuildError
  no_artifacts images_not_read not_marshalled output_not_created not_written artifact_not_opened :
      BuildError
  not_signed : SignerError → BuildError

-- What WalkDir calls its function with: an error, a directory, something that is no regular file, or
-- a file of a path from the root and its bytes, none where they cannot be read.
pub data WalkEntry : Type 0 where
  walk_error directory irregular : WalkEntry
  regular : (rel : Text) (content : Option (List ℕ)) → WalkEntry

pub record BuildConfig : Type 0 where
  pub artifacts_dir : Text
  pub images_file : Text
  pub output : Text
  pub signer : Option Signer
  pub now : ℕ

-- The files of the machine: the directory of the artifacts, none where Stat does not say that it is
-- one; a text file; whether the output is created; and a file that is opened anew.
pub record Files : Type 0 where
  pub walk : Text → Option (List WalkEntry)
  pub read_file : Text → Option Text
  pub create : Text → Bool
  pub contents : Text → Option (List ℕ)

-- A step that writes entries to the end of the archive.
abbrev pub Build : Type 0 → Type 0
Build A = Method (List (Option TarEntry)) BuildError A

-- s < t on strings
unfoldable pub text_lt : Text → Text → Bool
text_lt s [] = false
text_lt [] (d ∷ t) = true
text_lt (c ∷ s) (d ∷ t) = if ltb c d then true else if c == d then text_lt s t else false

unfoldable pub insert_artifact : ManifestArtifact → List ManifestArtifact → List ManifestArtifact
unfolding text_lt
insert_artifact a [] = a ∷ []
insert_artifact a (b ∷ entries) =
    let rest = insert_artifact a entries in
    if text_lt b.path a.path then b ∷ rest else a ∷ b ∷ entries

-- sort.Slice by path
unfoldable pub sort_artifacts : List ManifestArtifact → List ManifestArtifact
unfolding insert_artifact
sort_artifacts [] = []
sort_artifacts (a ∷ entries) = insert_artifact a (sort_artifacts entries)

-- readImagesFile
unfoldable pub read_images_file : (Text → Option Text) → Text → Result BuildError (List Text)
unfolding trim_space image_lines
read_images_file read_file path =
    if is_nil (trim_space path) then ok [] else elim (read_file path) [
      | none ↦ err images_not_read
      | some content ↦ ok (image_lines content)
    ]

abbrev pub artifact_entry : ManifestArtifact → List ℕ → TarEntry
artifact_entry art content = record {
  name = join (lit "artifacts") art.path;
  typeflag = type_reg;
  body = some content;
}

abbrev pub manifest_entry : List ℕ → TarEntry
manifest_entry bytes = record { name = lit "manifest.yaml"; typeflag = type_reg; body = some bytes }

module _ (sum : List ℕ → List ℕ) where
  abbrev pub artifact_of : Text → List ℕ → ManifestArtifact
  artifact_of rel content = record {
    path = rel;
    kind = infer_kind rel;
    size = pos (length content);
    sha256 = hex_encode (sum content);
  }

  abbrev pub collected :
      List ManifestArtifact → Text → Option (List ℕ) → Result BuildError (List ManifestArtifact)
  collected artifacts rel none = err file_not_read
  collected artifacts rel (some content) = ok (artifacts ++ artifact_of rel content ∷ [])

  -- collectArtifacts, of the entries of the walk
  unfoldable pub collect_artifacts :
      List ManifestArtifact → List WalkEntry → Result BuildError (List ManifestArtifact)
  unfolding infer_kind hex_encode
  collect_artifacts artifacts [] = ok artifacts
  collect_artifacts artifacts (walk_error ∷ entries) = err walk_failed
  collect_artifacts artifacts (directory ∷ entries) = collect_artifacts artifacts entries
  collect_artifacts artifacts (irregular ∷ entries) = collect_artifacts artifacts entries
  collect_artifacts artifacts (regular rel content ∷ entries) =
      elim (collected artifacts rel content) [
        | err e ↦ err e
        | ok more ↦ collect_artifacts more entries
      ]

module _ (writes : List (Option TarEntry) → TarEntry → Bool) where
  -- tw.WriteHeader and the copy of the body
  abbrev pub write_entry : TarEntry → Build (Unit {0})
  write_entry e archive =
      if writes archive e then (ok tt, archive ++ some e ∷ []) else (err not_written, archive)

  module _ (files : Files) where
    abbrev pub write_artifact : ManifestArtifact → Option (List ℕ) → Build (Unit {0})
    write_artifact art none = fail artifact_not_opened
    write_artifact art (some content) = write_entry (artifact_entry art content)

    unfoldable pub write_artifacts : Text → List ManifestArtifact → Build (Unit {0})
    unfolding join
    write_artifacts dir [] = return tt
    write_artifacts dir (art ∷ entries) =
        write_artifact art (files.contents (join dir art.path)) >> write_artifacts dir entries

    -- writeBundle
    unfoldable pub write_bundle : Text → List ℕ → Text → List ManifestArtifact → Build (Unit {0})
    unfolding write_artifacts
    write_bundle output manifest dir entries =
        if files.create output
        then write_entry (manifest_entry manifest) >> write_artifacts dir entries
        else fail output_not_created

module _ (sum : List ℕ → List ℕ) (crypto : Crypto) (yaml : Yaml)
    (writes : List (Option TarEntry) → TarEntry → Bool) (files : Files) where
  abbrev pub some_artifacts : List ManifestArtifact → Result BuildError (List ManifestArtifact)
  some_artifacts [] = err no_artifacts
  some_artifacts (art ∷ entries) = ok (sort_artifacts (art ∷ entries))

  abbrev pub unsigned : BuildConfig → Signer → List Text → List ManifestArtifact → Manifest
  unsigned cfg signer images entries = record {
    version = lit "1";
    created_at = cfg.now;
    signer = signer.recipient;
    signing_public_key = public_key_base64 crypto signer;
    signature = [];
    images = images;
    artifacts = entries;
  }

  abbrev pub signature_of : Result SignerError Text → Result BuildError Text
  signature_of (err e) = err (not_signed e)
  signature_of (ok signature) = ok signature

  abbrev pub written : BuildConfig → Manifest → List ℕ → Build Manifest
  written cfg m bytes =
      write_bundle writes files cfg.output bytes cfg.artifacts_dir m.artifacts >> return m

  abbrev pub signed : BuildConfig → Manifest → Text → Build Manifest
  signed cfg m signature =
      let named = record m { signature = signature } in
      lift (or_else not_marshalled (yaml.marshal named)) >>= written cfg named

  abbrev pub sign_and_write : BuildConfig → Signer → Manifest → Build Manifest
  sign_and_write cfg signer m = lift (or_else not_marshalled (signing_bytes yaml m)) >>= λ payload.
      lift (signature_of (sign crypto signer payload)) >>= λ signature. signed cfg m signature

  abbrev pub checked_config : BuildConfig → Result BuildError Signer
  checked_config cfg =
      if is_nil cfg.artifacts_dir
      then err artifacts_dir_required
      else if is_nil cfg.output
      then err output_required
      else or_else signer_required cfg.signer

  -- Build, onto an archive that is empty at first
  unfoldable pub build : BuildConfig → Build Manifest
  unfolding sort_artifacts collect_artifacts read_images_file sign write_bundle
  build cfg = lift (checked_config cfg) >>= λ signer.
      lift (or_else not_a_directory (files.walk cfg.artifacts_dir)) >>= λ walked.
      lift (collect_artifacts sum [] walked) >>= λ found. lift (some_artifacts found) >>= λ entries.
      lift (read_images_file files.read_file cfg.images_file) >>= λ images.
      sign_and_write cfg signer (unsigned cfg signer images entries)
