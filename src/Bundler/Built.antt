-- ===== src/Bundler/Built.antt =====
-- services/bundler/bundler.go: what Build leaves, of a directory whose files do not change while it runs.
use goosed.Support.{
  ℕ, ◌≡◌, refl, sym, ap, subst, ◌∙◌, Bool, Option, none, some, List, [], ◌∷◌, ◌++◌, append_assoc,
  append-nil, length, Bool-cases, All, inl, inr,
}
use goosed.Support.Text.{Text, lit}
use goosed.Support.Strconv.{pos}
use goosed.Support.Hex.{hex_encode}
use goosed.Support.Paths.{join}
use goosed.Support.Relative.{IsPath}
use goosed.Support.Results.{lift, Result, ok, err, and_then, ok-injective, ok_ne_err, and_then-ok}
use goosed.Bundler.Manifest.{ManifestArtifact, Manifest, Yaml, signing_bytes}
use goosed.Bundler.Signer.{Crypto, Signer, sign, public_key_base64}
use goosed.Bundler.Extract.{TarEntry}
use goosed.Bundler.Build.{
  BuildError, Build, Files, WalkEntry, walk_error, directory, irregular, regular, artifact_entry,
  manifest_entry, artifact_of, collect_artifacts, text_lt, insert_artifact, sort_artifacts,
  write_entry, write_artifacts, some_artifacts,
}

pub lift-ok :
    {A B : Type 0} (o : Result BuildError A) (f : A → Build B) {t t' : List (Option TarEntry)}
    {b : B}
    → and_then (lift o t) f ≡ (ok b, t')
    → (a : A) × (o ≡ ok a) × (f a t ≡ (ok b, t'))
lift-ok (ok a) f h = (a, refl, h)
lift-ok (err e) f h = absurd (cc)

pub pair_of : {A B : Type 0} (r : A × B) {a : A} → r.0 ≡ a → r ≡ (a, r.1)
pair_of (a, b) h = ap (λ z. (z, b)) h

All-insert_artifact :
    (P : ManifestArtifact → Type 0) (a : ManifestArtifact) (entries : List ManifestArtifact)
    → P a
    → All P entries
    → All P (insert_artifact a entries)
unfolding insert_artifact
All-insert_artifact P a [] p h = (p, tt)
All-insert_artifact P a (b ∷ entries) p (q, h) = elim (Bool-cases (text_lt b.path a.path)) [
  | inl y ↦ rw y (q, All-insert_artifact P a entries p h)
  | inr n ↦ rw n (p, (q, h))
]

All-sort_artifacts :
    (P : ManifestArtifact → Type 0) (entries : List ManifestArtifact)
    → All P entries
    → All P (sort_artifacts entries)
unfolding sort_artifacts
All-sort_artifacts P [] h = tt
All-sort_artifacts P (a ∷ entries) (p, h) =
    All-insert_artifact P a (sort_artifacts entries) p (All-sort_artifacts P entries h)

All-snoc :
    (P : ManifestArtifact → Type 0) (xs : List ManifestArtifact) (a : ManifestArtifact)
    → All P xs
    → P a
    → All P (xs ++ a ∷ [])
All-snoc P [] a h p = (p, tt)
All-snoc P (x ∷ xs) a (q, h) p = (q, All-snoc P xs a h p)

module _ (sum : List ℕ → List ℕ) (files : Files) (dir : Text) where
  -- A file that the walk has read is read again as it was.
  unfoldable pub Stable : WalkEntry → Type 0
  Stable (regular rel (some content)) = IsPath rel × (files.contents (join dir rel) ≡ some content)
  Stable _ = Unit {0}

  -- The artifact of a file of the directory.
  pub record Kept (art : ManifestArtifact) (content : List ℕ) : Type 0 where
    pub of_path : IsPath art.path
    pub of_contents : files.contents (join dir art.path) ≡ some content
    pub of_size : art.size ≡ pos (length content)
    pub of_digest : art.sha256 ≡ hex_encode (sum content)

  abbrev pub IsKept : ManifestArtifact → Type 0
  IsKept art = (content : List ℕ) × Kept art content

  -- The entries of an archive for a list of artifacts.
  pub data Archived : List ManifestArtifact → List (Option TarEntry) → Type 0 where
    archived_nil : Archived [] []
    archived_cons :
        {art : ManifestArtifact} {arts : List ManifestArtifact} {entries : List (Option TarEntry)}
        (content : List ℕ)
        → Kept art content
        → Archived arts entries
        → Archived (art ∷ arts) (some (artifact_entry art content) ∷ entries)

  pub collect_artifacts-IsKept :
      (found : List ManifestArtifact) (walked : List WalkEntry) {arts : List ManifestArtifact}
      → All IsKept found
      → All Stable walked
      → collect_artifacts sum found walked ≡ ok arts
      → All IsKept arts
  unfolding collect_artifacts Stable
  collect_artifacts-IsKept found [] k s h = subst (All IsKept) (ok-injective h) k
  collect_artifacts-IsKept found (walk_error ∷ walked) k s h = absurd (cc)
  collect_artifacts-IsKept found (directory ∷ walked) k (_, s) h =
      collect_artifacts-IsKept found walked k s h
  collect_artifacts-IsKept found (irregular ∷ walked) k (_, s) h =
      collect_artifacts-IsKept found walked k s h
  collect_artifacts-IsKept found (regular rel none ∷ walked) k (_, s) h = absurd (cc)
  collect_artifacts-IsKept found (regular rel (some content) ∷ walked) k ((p, c), s) h =
      collect_artifacts-IsKept (found ++ artifact_of sum rel content ∷ []) walked
        (All-snoc IsKept found (artifact_of sum rel content) k
          (content, record { of_path = p; of_contents = c; of_size = refl; of_digest = refl }))
        s h

  module _ (crypto : Crypto) (yaml : Yaml) (writes : List (Option TarEntry) → TarEntry → Bool) where
    pub some_artifacts-IsKept :
        (found : List ManifestArtifact) {arts : List ManifestArtifact}
        → All IsKept found
        → some_artifacts sum crypto yaml writes files found ≡ ok arts
        → All IsKept arts
    some_artifacts-IsKept [] k h = absurd (cc)
    some_artifacts-IsKept (a ∷ found) k h =
        subst (All IsKept) (ok-injective h) (All-sort_artifacts IsKept (a ∷ found) k)

    pub write_entry_ok :
        (e : TarEntry) (t : List (Option TarEntry)) {u : Unit {0}} {t' : List (Option TarEntry)}
        → write_entry writes e t ≡ (ok u, t')
        → t' ≡ t ++ some e ∷ []
    write_entry_ok e t h = elim (Bool-cases (writes t e)) [
      | inl y ↦ sym (ap (λ r. r.1) (rw y at h))
      | inr n ↦ absurd (ok_ne_err (sym (ap (λ r. r.0) (rw n at h))))
    ]

    pub write_artifacts-Archived :
        (arts : List ManifestArtifact) (t : List (Option TarEntry)) {u : Unit {0}}
        {t' : List (Option TarEntry)}
        → All IsKept arts
        → write_artifacts writes files dir arts t ≡ (ok u, t')
        → (entries : List (Option TarEntry)) × Archived arts entries × (t' ≡ t ++ entries)
    unfolding write_artifacts
    write_artifacts-Archived [] t k h =
        ([], archived_nil, sym (ap (λ r. r.1) h) ∙ sym (append-nil t))
    write_artifacts-Archived (art ∷ arts) t ((content, a), k) h =
        let (v, w, g) =
          and_then-ok (write_entry writes (artifact_entry art content) t) _
            (rw a.of_contents at h) in
        let (entries, rest, same) = write_artifacts-Archived arts _ k g in
        (
          some (artifact_entry art content) ∷ entries,
          archived_cons content a rest,
          same
              ∙ ap (λ z. z ++ entries) (write_entry_ok (artifact_entry art content) t (pair_of _ w))
              ∙ append_assoc t (some (artifact_entry art content) ∷ []) entries,
        )

    -- What a build leaves: the manifest, which its signer signed, and the archive, which begins with
    -- the manifest and goes on with its artifacts in their order.
    pub record Built (signer : Signer) (m : Manifest) (archive : List (Option TarEntry))
        : Type 0 where
      pub of_version : m.version ≡ lit "1"
      pub of_key : m.signing_public_key ≡ public_key_base64 crypto signer
      pub payload : List ℕ
      pub of_payload : signing_bytes yaml m ≡ some payload
      pub of_signature : sign crypto signer payload ≡ ok m.signature
      pub bytes : List ℕ
      pub of_bytes : yaml.marshal m ≡ some bytes
      pub entries : List (Option TarEntry)
      pub of_entries : Archived m.artifacts entries
      pub of_archive : archive ≡ some (manifest_entry bytes) ∷ entries
