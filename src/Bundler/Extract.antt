-- ===== src/Bundler/Extract.antt =====
-- services/bundler/bundler.go: the loop of Import over the entries of the archive. A reader gives
-- its entries, none where Next fails, and an entry its body, none where it cannot be read.
use goosed.Support.{ℕ, Bool, Option, none, some, List, [], ◌∷◌, if◌then◌else◌}
use goosed.Support.Text.{Text, lit, text_eq, text_eq_instance, has_prefix}
use goosed.Support.Maps.{Map, insert}
use goosed.Support.Paths.{clean, join}
use goosed.Support.Results.{Result, ok, err}
use goosed.Bundler.Signer.{SignerError}

pub data ImportError : Type 0 where
  bundle_required base_url_required base_url_refused s3_required signer_required : ImportError
  bundle_not_opened no_temp_dir entry_not_read invalid_entry not_created body_not_read : ImportError
  manifest_missing bad_manifest unsupported_version signature_missing not_marshalled : ImportError
  refused : SignerError → ImportError
  artifact_missing temp_not_read size_mismatch sha256_mismatch : ImportError
  post_failed register_failed bad_response url_missing bad_artifact_url bad_digest put_failed :
      ImportError

pub data Typeflag : Type 0 where
  type_dir type_reg type_other : Typeflag

pub record TarEntry : Type 0 where
  pub name : Text
  pub typeflag : Typeflag
  pub body : Option (List ℕ)

-- The variables of the loop, and the content of the files that it created.
pub record Extracted : Type 0 where
  pub manifest_bytes : List ℕ
  pub files : Map Text Text
  pub temp : Map Text (List ℕ)

-- Whether os.MkdirAll makes a directory, and whether MkdirAll of the parent and os.Create make a file
pub record Disk : Type 0 where
  pub mkdir_all : Extracted → Text → Bool
  pub create : Extracted → Text → Bool

module _ (disk : Disk) (temp_dir : Text) where
  abbrev extract_dir : Extracted → Text → Result ImportError Extracted
  extract_dir s target =
      if has_prefix target temp_dir
      then if disk.mkdir_all s target then ok s else err not_created
      else err invalid_entry

  abbrev read_manifest : Extracted → Option (List ℕ) → Result ImportError Extracted
  read_manifest s none = err body_not_read
  read_manifest s (some bytes) = ok (record s { manifest_bytes = bytes })

  abbrev write_temp :
      Extracted → (name target : Text) → Option (List ℕ) → Result ImportError Extracted
  write_temp s name target none = err body_not_read
  write_temp s name target (some bytes) =
      ok (record s { files = insert name target s.files; temp = insert target bytes s.temp })

  abbrev extract_file :
      Extracted → (name target : Text) → Option (List ℕ) → Result ImportError Extracted
  extract_file s name target body =
      if has_prefix target temp_dir
      then if disk.create s target then write_temp s name target body else err not_created
      else err invalid_entry

  -- The body of the loop, of the cleaned name.
  abbrev pub extract_entry :
      Extracted → Text → Option (List ℕ) → Typeflag → Result ImportError Extracted
  extract_entry s name body type_dir = extract_dir s (join temp_dir name)
  extract_entry s name body type_other = ok s
  extract_entry s name body type_reg =
      if text_eq name (lit "manifest.yaml")
      then read_manifest s body
      else extract_file s name (join temp_dir name) body

  unfoldable pub extract : Extracted → List (Option TarEntry) → Result ImportError Extracted
  unfolding clean join text_eq has_prefix insert
  extract s [] = ok s
  extract s (none ∷ entries) = err entry_not_read
  extract s (some e ∷ entries) = elim (extract_entry s (clean e.name) e.body e.typeflag) [
    | err x ↦ err x
    | ok t ↦ extract t entries
  ]

abbrev pub nothing_extracted : Extracted
nothing_extracted = record { manifest_bytes = []; files = []; temp = [] }
