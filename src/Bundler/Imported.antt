-- ===== src/Bundler/Imported.antt =====
-- services/bundler/bundler.go: what Import sends, a step at a time.
use goosed.Support.{
  some-injective, ℕ, ◌≡◌, refl, sym, subst, ◌∙◌, true, Option, none, some, List, [], ◌∷◌, ◌++◌, inl,
  inr, length, arith, Bool-cases, All, ◌<◌,
}
use goosed.Support.Text.{Text, lit, text_eq_instance, equal_fold}
use goosed.Support.Strconv.{ℤ, pos, negsuc}
use goosed.Support.Hex.{hex_encode, hex_decode, hex_decode-hex_encode, hex_decode_fold}
use goosed.Support.Results.{lift, Result, ok, err, and_then, ok-injective}
use goosed.S3.{PutObjectInput, encode_sha256, send}
use goosed.Bundler.Manifest.{ManifestArtifact, Yaml}
use goosed.Bundler.Signer.{Crypto}
use goosed.Bundler.Urls.{parse_s3_url}
use goosed.Bundler.Extract.{ImportError, Extracted, bad_digest}
use goosed.Bundler.Import.{
  Event, posted, put, Services, Step, same_size, s3_location, stored, validate_artifact, validated,
  register_artifact, send_object, upload, import_artifacts,
}

same_size-pos : (n : ℕ) (z : ℤ) → same_size n z ≡ true → z ≡ pos n
same_size-pos n (pos m) h = ground arith
same_size-pos n (negsuc m) h = absurd (cc)

-- What follows a result, of every result.
pub lift-bind :
    {A B : Type 0} (P : Result ImportError B × List Event → Type 0) (o : Result ImportError A)
    (f : A → Step B) (t : List Event)
    → ((e : ImportError) → P (err e, t))
    → ((a : A) → o ≡ ok a → P (f a t))
    → P (and_then (lift o t) f)
lift-bind P (ok a) f t h g = g a refl
lift-bind P (err e) f t h g = h e

module _ (sum : List ℕ → List ℕ) (crypto : Crypto) (yaml : Yaml) (x : Extracted) where
  -- The bytes of the archive that pass for an artifact.
  pub record Sound (art : ManifestArtifact) (body : List ℕ) : Type 0 where
    pub of_archive : stored x art ≡ ok body
    pub of_size : art.size ≡ pos (length body)
    pub of_digest : equal_fold (hex_encode (sum body)) art.sha256 ≡ true

  -- The upload of an artifact, whose checksum is that of its own bytes.
  pub record Upload (art : ManifestArtifact) (i : PutObjectInput) : Type 0 where
    pub sound : Sound art i.body
    pub whole : i.content_length ≡ pos (length i.body)
    pub checksum : i.checksum_sha256 ≡ crypto.encode (sum i.body)

  -- What was sent of a list of artifacts: those to come, the one between its registration and its
  -- upload, if any, and the events, the newest first.
  pub data Sent (arts : List ManifestArtifact)
      : Option ManifestArtifact → List ManifestArtifact → List Event → Type 0 where
    nothing : Sent arts none arts []
    register :
        {art : ManifestArtifact} {rest : List ManifestArtifact} {t : List Event}
        → Sent arts none (art ∷ rest) t
        → (url : Text) (body : List ℕ) → Sound art body
        → Sent arts (some art) rest (posted url art ∷ t)
    upload_it :
        {art : ManifestArtifact} {rest : List ManifestArtifact} {t : List Event}
        → Sent arts (some art) rest t
        → (i : PutObjectInput) → Upload art i
        → Sent arts none rest (put i ∷ t)

  abbrev pub SomeSent : List ManifestArtifact → List Event → Type 0
  SomeSent arts t =
      (pending : Option ManifestArtifact) × (rest : List ManifestArtifact) × Sent arts pending rest
        t

  -- The outcome of a step: what was sent keeps to the list, and all up to `rest` was if it succeeds.
  pub record Sends {A : Type 0} (arts rest : List ManifestArtifact)
      (r : Result ImportError A × List Event) : Type 0 where
    pub finished : (a : A) → r.0 ≡ ok a → Sent arts none rest r.1
    pub some_sent : SomeSent arts r.1

  bind-Sends :
      {A B : Type 0} {arts rest : List ManifestArtifact} (r : Result ImportError A × List Event)
      (f : A → Step B)
      → SomeSent arts r.1
      → ((a : A) → r.0 ≡ ok a → Sends arts rest (f a r.1))
      → Sends arts rest (and_then r f)
  bind-Sends (ok a, t) f s g = g a refl
  bind-Sends (err e, t) f s g = record { finished = λ a q. absurd (cc); some_sent = s }

  fails-Sends :
      {A : Type 0} {arts rest : List ManifestArtifact} {t : List Event} (e : ImportError)
      → SomeSent arts t
      → Sends {A = A} arts rest (err e, t)
  fails-Sends e s = record { finished = λ a q. absurd (cc); some_sent = s }

  validated-Sound :
      (r : Result ImportError (List ℕ)) (art : ManifestArtifact) {body : List ℕ}
      → stored x art ≡ r
      → validated sum crypto yaml r art ≡ ok body
      → Sound art body
  unfolding validate_artifact
  validated-Sound (err e) art s h = absurd (cc)
  validated-Sound (ok b) art s h = elim (Bool-cases (same_size (length b) art.size)) [
    | inr n ↦ absurd (ground arith)
    | inl y ↦ elim (Bool-cases (equal_fold (hex_encode (sum b)) art.sha256)) [
      | inr n ↦ absurd (ground arith)
      | inl z ↦
          subst (Sound art) (ok-injective (rw (y, z) at h)) (record {
            of_archive = s;
            of_size = same_size-pos (length b) art.size y;
            of_digest = z;
          })
    ]
  ]

  module _ (sum_bytes : (b : List ℕ) → All (λ d. d < 256) (sum b)) where
    checksum_of :
        (body : List ℕ) (digest : Text) {checksum : Text}
        → equal_fold (hex_encode (sum body)) digest ≡ true
        → encode_sha256 crypto.encode digest ≡ some checksum
        → checksum ≡ crypto.encode (sum body)
    unfolding encode_sha256
    checksum_of body [] h e = absurd (cc)
    checksum_of body (c ∷ digest) h e =
        let raw : hex_decode (c ∷ digest) ≡ some (sum body) =
          sym (hex_decode_fold _ _ h) ∙ hex_decode-hex_encode (sum body) (sum_bytes body) in
        some-injective (sym (rw raw at e))

    module _ (services : Services) {arts : List ManifestArtifact} where
      send-Sends :
          {art : ManifestArtifact} {rest : List ManifestArtifact} {t : List Event}
          (bucket key : Text) (body : List ℕ) (o : Option Text)
          → Sent arts (some art) rest t
          → Sound art body
          → ((c : Text) → o ≡ some c → c ≡ crypto.encode (sum body))
          → Sends arts rest (
              send crypto.encode
                (send_object sum crypto yaml services)
                bad_digest
                bucket
                key
                body
                art.size
                art.sha256
                o
                t)
      send-Sends bucket key body none s ok_body h = fails-Sends bad_digest (_, _, s)
      send-Sends bucket key body (some c) s ok_body h =
          let after =
            upload_it s _
              (record { sound = ok_body; whole = ok_body.of_size; checksum = h c refl }) in
          record { finished = λ a q. after; some_sent = (_, _, after) }

      upload-Sends :
          {rest : List ManifestArtifact} {t : List Event} (base_url : Text) (art : ManifestArtifact)
          (body : List ℕ)
          → Sent arts none (art ∷ rest) t
          → Sound art body
          → Sends arts rest (upload sum crypto yaml services base_url art body t)
      unfolding upload
      upload-Sends base_url art body s ok_body =
          let after = register s (base_url ++ lit "/v1/artifacts") body ok_body in
          bind-Sends (register_artifact sum crypto yaml services base_url art _) _ (_, _, after)
            (λ url q.
              lift-bind (Sends arts _) (s3_location (parse_s3_url url)) _ _
                (λ e. fails-Sends e (_, _, after))
                (λ (bucket, key) g.
                  send-Sends bucket key body (encode_sha256 crypto.encode art.sha256) after ok_body
                    (λ c e. checksum_of body art.sha256 ok_body.of_digest e)))

      pub import_artifacts-Sends :
          (base_url : Text) (rest : List ManifestArtifact) {t : List Event}
          → Sent arts none rest t
          → Sends arts [] (import_artifacts sum crypto yaml services base_url x rest t)
      unfolding import_artifacts
      import_artifacts-Sends base_url [] s = record { finished = λ a q. s; some_sent = (_, _, s) }
      import_artifacts-Sends base_url (art ∷ rest) {t} s =
          let first : Sends arts rest (
              and_then (lift (validated sum crypto yaml (stored x art) art) t)
                (upload sum crypto yaml services base_url art)) =
            lift-bind (Sends arts rest) (validated sum crypto yaml (stored x art) art)
              (upload sum crypto yaml services base_url art) t (λ e. fails-Sends e (_, _, s))
              (λ body h.
                upload-Sends base_url art body s (validated-Sound (stored x art) art refl h)) in
          bind-Sends _ _ first.some_sent
            (λ u q. import_artifacts-Sends base_url rest (first.finished u q))
