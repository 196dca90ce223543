-- ===== src/Bundler/Unpacked.antt =====
-- services/bundler/bundler.go: Import's loop over the entries of an archive that Build wrote.
use goosed.Support.{
  ℕ, ◌≡◌, ◌≢◌, refl, sym, subst, ◌∙◌, true, Option, some, List, [], ◌∷◌, ◌++◌, Bool-cases, All, any,
  inl, inr,
}
use goosed.Support.Text.{Text, lit, text_eq, text_eq_iff, text_eq_instance}
use goosed.Support.Maps.{lookup, insert, lookup-insert_self, lookup-insert_ne}
use goosed.Support.Paths.{clean, join, join_slash}
use goosed.Support.Relative.{
  IsPath, IsAbsolute, append-IsPath, clean-IsPath, join-IsPath, join-IsAbsolute, has_prefix-append,
  append_cancel, no_slash,
}
use goosed.Support.Results.{ok}
use goosed.Bundler.Manifest.{ManifestArtifact}
use goosed.Bundler.Extract.{TarEntry, type_reg, Extracted, Disk, extract_entry, extract}
use goosed.Bundler.Build.{Files}
use goosed.Bundler.Built.{Kept, Archived, archived_nil, archived_cons}

-- The name of an artifact in the archive.
abbrev pub name_of : Text → Text
name_of path = lit "artifacts" ++ 47 ∷ path

artifacts-IsPath : IsPath (lit "artifacts")
unfolding text_eq join_slash any
artifacts-IsPath = record {
  first = lit "artifacts";
  others = [];
  first_name = (refl, refl, refl, no_slash (lit "artifacts") refl);
  other_names = tt;
  spelled = refl;
}

pub join-artifacts : (path : Text) → IsPath path → join (lit "artifacts") path ≡ name_of path
join-artifacts path p = join-IsPath (lit "artifacts") path artifacts-IsPath p

pub name_of-IsPath : (path : Text) → IsPath path → IsPath (name_of path)
name_of-IsPath path p = append-IsPath (lit "artifacts") path artifacts-IsPath p

module _ (disk : Disk) (temp_dir : Text) (temp_absolute : IsAbsolute temp_dir)
    (creates : (x : Extracted) (path : Text) → disk.create x path ≡ true) where
  abbrev target_of : Text → Text
  target_of path = temp_dir ++ 47 ∷ name_of path

  -- The file of a path is among the extracted ones, with these bytes.
  pub record Held (x : Extracted) (path : Text) (content : List ℕ) : Type 0 where
    pub of_name : lookup (name_of path) x.files ≡ some (target_of path)
    pub of_temp : lookup (target_of path) x.temp ≡ some content

  abbrev with_file : Extracted → Text → List ℕ → Extracted
  with_file x path content = record x {
    files = insert (name_of path) (target_of path) x.files;
    temp = insert (target_of path) content x.temp;
  }

  extract_entry_ok :
      (x : Extracted) (path : Text) (content : List ℕ)
      → IsPath path
      → extract_entry disk temp_dir x (clean (join (lit "artifacts") path)) (some content) type_reg
        ≡ ok (with_file x path content)
  unfolding text_eq
  extract_entry_ok x path content p =
      let named = name_of-IsPath path p in
      rw
        (
          join-artifacts path p,
          clean-IsPath (name_of path) named,
          join-IsAbsolute temp_dir (name_of path) temp_absolute named,
          has_prefix-append temp_dir (47 ∷ name_of path),
          creates x (target_of path),
        )
        refl

  with_file-Held :
      (x : Extracted) (path : Text) (content : List ℕ)
      → Held (with_file x path content) path content
  with_file-Held x path content = record {
    of_name = lookup-insert_self (name_of path) (target_of path) x.files;
    of_temp = lookup-insert_self (target_of path) content x.temp;
  }

  name_of-injective : (p q : Text) → name_of p ≡ name_of q → p ≡ q
  name_of-injective p q h = append_cancel (lit "artifacts/") p q h

  target_of-injective : (p q : Text) → target_of p ≡ target_of q → p ≡ q
  target_of-injective p q h =
      name_of-injective p q (tail (append_cancel temp_dir (47 ∷ name_of p) (47 ∷ name_of q) h))
    where
      tail : {a b : Text} → 47 ∷ a ≡ 47 ∷ b → a ≡ b
      tail g = cc

  other_file-Held :
      (x : Extracted) (path other : Text) (content more : List ℕ)
      → (other ≡ path → more ≡ content)
      → Held x path content
      → Held (with_file x other more) path content
  other_file-Held x path other content more same h = elim (Bool-cases (text_eq other path)) [
    | inl y ↦
        let e = (text_eq_iff other path).0 y in
        subst (λ z. Held (with_file x z more) path content) (sym e)
          (subst (λ z. Held (with_file x path z) path content) (sym (same e))
            (with_file-Held x path content))
    | inr n ↦
        let differ : other ≢ path = λ e. cc ((text_eq_iff other path).1 e, n) in
        record {
          of_name =
              lookup-insert_ne (name_of other) (name_of path) _ x.files
                (λ e. differ (name_of-injective other path e))
              ∙ h.of_name;
          of_temp =
              lookup-insert_ne (target_of other) (target_of path) _ x.temp
                (λ e. differ (target_of-injective other path e))
              ∙ h.of_temp;
        }
  ]

  module _ (sum : List ℕ → List ℕ) (files : Files) (dir : Text) where
    -- An artifact of the directory, whose file is among the extracted ones.
    pub record Carried (x : Extracted) (art : ManifestArtifact) : Type 0 where
      pub content : List ℕ
      pub kept : Kept sum files dir art content
      pub held : Held x art.path content

    pub record Unpacked (arts : List ManifestArtifact) (x x' : Extracted) : Type 0 where
      pub same_manifest : x'.manifest_bytes ≡ x.manifest_bytes
      pub keeps : (art : ManifestArtifact) → Carried x art → Carried x' art
      pub carried : All (Carried x') arts

    same_contents :
        {p q : Text} {a b : List ℕ}
        → p ≡ q
        → files.contents (join dir p) ≡ some a
        → files.contents (join dir q) ≡ some b
        → a ≡ b
    same_contents e g h = cc

    with_file-Carried :
        (x : Extracted) (a : ManifestArtifact) (more : List ℕ)
        → Kept sum files dir a more
        → (art : ManifestArtifact) → Carried x art
        → Carried (with_file x a.path more) art
    with_file-Carried x a more k art c = record {
      content = c.content;
      kept = c.kept;
      held =
          other_file-Held x art.path a.path c.content more
            (λ e. same_contents e k.of_contents c.kept.of_contents) c.held;
    }

    -- The entries of the artifacts are all extracted.
    pub extract-Unpacked :
        (arts : List ManifestArtifact) (entries : List (Option TarEntry)) (x : Extracted)
        → Archived sum files dir arts entries
        → (x' : Extracted) × (extract disk temp_dir x entries ≡ ok x') × Unpacked arts x x'
    unfolding extract
    extract-Unpacked _ _ x archived_nil =
        (x, refl, record { same_manifest = refl; keeps = λ art c. c; carried = tt })
    extract-Unpacked (art ∷ arts) (_ ∷ entries) x (archived_cons content k rest) =
        let (x', e, u) = extract-Unpacked arts entries (with_file x art.path content) rest in
        (
          x',
          rw (extract_entry_ok x art.path content k.of_path) e,
          record {
            same_manifest = u.same_manifest;
            keeps = λ a c. u.keeps a (with_file-Carried x art content k a c);
            carried = (
              u.keeps art (record {
                content = content;
                kept = k;
                held = with_file-Held x art.path content;
              }),
              u.carried,
            );
          },
        )
