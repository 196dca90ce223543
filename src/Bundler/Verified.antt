-- ===== src/Bundler/Verified.antt =====
-- services/bundler/bundler.go: Import as a whole, from the configuration to the last upload.
use goosed.Support.{
  ℕ, ◌≡◌, refl, sym, ap, subst, ◌∙◌, Bool, Option, none, some, List, [], ◌⊎◌, inl, inr, arith,
  Bool-cases, All, ◌<◌,
}
use goosed.Support.Text.{Text, lit, text_eq, text_eq_iff}
use goosed.Support.Results.{
  or_else, or_else-ok, Result, ok, err, and_then, return, ok-injective, ok_ne_err,
}
use goosed.Bundler.Manifest.{Manifest, Yaml, signing_bytes}
use goosed.Bundler.Signer.{Crypto, Signer, SignerError, is_nil, verify}
use goosed.Bundler.Extract.{ImportError, TarEntry, Extracted, Disk, s3_required, signer_required}
use goosed.Bundler.Import.{
  Event, Services, ImportConfig, verified, verified_payload, verified_manifest, checked_manifest,
  extracted, checked_config, import_extracted, import_bundle, trim_right_slash,
}
use goosed.Bundler.Imported.{Sent, SomeSent, nothing, Sends, lift-bind, import_artifacts-Sends}

module _ (sum : List ℕ → List ℕ) (crypto : Crypto) (yaml : Yaml) where
  -- The manifest that bytes stand for, of the known version and with a signature of its own bytes
  -- that the signer verifies.
  pub record Verified (signer : Signer) (bytes : List ℕ) (m : Manifest) : Type 0 where
    pub unmarshalled : yaml.unmarshal bytes ≡ some m
    pub known : m.version ≡ lit "1"
    pub payload : List ℕ
    pub signed_bytes : signing_bytes yaml m ≡ some payload
    pub verified : verify crypto signer payload m.signature m.signing_public_key ≡ ok tt

  signature_of :
      (m : Manifest) (r : Result SignerError (Unit {0})) {m' : Manifest}
      → verified sum crypto yaml m r ≡ ok m'
      → (r ≡ ok tt) × (m ≡ m')
  signature_of m (err e) h = absurd (cc)
  signature_of m (ok u) h = (refl, ok-injective h)

  payload_of :
      (signer : Signer) (bytes : List ℕ) (n : Manifest) (o : Option (List ℕ)) {m : Manifest}
      → yaml.unmarshal bytes ≡ some n
      → n.version ≡ lit "1"
      → signing_bytes yaml n ≡ o
      → verified_payload sum crypto yaml signer n o ≡ ok m
      → Verified signer bytes m
  payload_of signer bytes n none u k s h = absurd (cc)
  payload_of signer bytes n (some payload) u k s h =
      let (v, same) =
        signature_of n (verify crypto signer payload n.signature n.signing_public_key) h in
      subst (Verified signer bytes) same
        (record { unmarshalled = u; known = k; payload = payload; signed_bytes = s; verified = v })

  manifest_of :
      (signer : Signer) (bytes : List ℕ) (o : Option Manifest) {m : Manifest}
      → yaml.unmarshal bytes ≡ o
      → verified_manifest sum crypto yaml signer o ≡ ok m
      → Verified signer bytes m
  manifest_of signer bytes none u h = absurd (cc)
  manifest_of signer bytes (some n) u h = elim (Bool-cases (text_eq n.version (lit "1"))) [
    | inr f ↦ absurd (ground arith)
    | inl y ↦ elim (Bool-cases (is_nil n.signature)) [
      | inl z ↦ absurd (ground arith)
      | inr z ↦
          payload_of signer bytes n (signing_bytes yaml n) u ((text_eq_iff n.version (lit "1")).0 y)
            refl (rw (y, z) at h)
    ]
  ]

  checked_manifest-Verified :
      (signer : Signer) (bytes : List ℕ) {m : Manifest}
      → checked_manifest sum crypto yaml signer bytes ≡ ok m
      → Verified signer bytes m
  unfolding checked_manifest
  checked_manifest-Verified signer bytes h = elim (Bool-cases (is_nil bytes)) [
    | inl y ↦ absurd (ground arith)
    | inr n ↦ manifest_of signer bytes (yaml.unmarshal bytes) refl (rw n at h)
  ]

  module _ (disk : Disk) (open_bundle : Text → Option (List (Option TarEntry)))
      (mkdir_temp : Option Text) (parse_scheme : Text → Option Text) (allow_insecure : Bool) where
    -- What an import has read: the archive, and the manifest that the signer verifies.
    pub record Accepted (cfg : ImportConfig) (x : Extracted) (m : Manifest) : Type 0 where
      pub signer : Signer
      pub configured : cfg.signer ≡ some signer
      pub read :
          extracted sum crypto yaml disk open_bundle mkdir_temp parse_scheme allow_insecure
            (open_bundle cfg.bundle_path)
            mkdir_temp
          ≡ ok x
      pub checked : Verified signer x.manifest_bytes m

    -- The outcome of an import: nothing sent, or a part of an accepted manifest's artifacts, and all
    -- of them if it succeeds.
    abbrev Outcome : ImportConfig → Result ImportError Manifest × List Event → Type 0
    Outcome cfg r =
        ((e : ImportError) × (r ≡ (err e, [])))
        ⊎ ((x : Extracted) × (m : Manifest) × Accepted cfg x m
            × Sends sum crypto yaml x m.artifacts [] r
            × ((a : Manifest) → r.0 ≡ ok a → a ≡ m))

    module _ (sum_bytes : (b : List ℕ) → All (λ d. d < 256) (sum b)) where
      artifacts_outcome :
          (x : Extracted) (m : Manifest)
          → (r : Result ImportError (Unit {0}) × List Event)
          → Sends sum crypto yaml x m.artifacts [] r
          → Sends sum crypto yaml x m.artifacts [] (and_then r (λ u. return m))
            × ((a : Manifest) → (and_then r (λ u. return m)).0 ≡ ok a → a ≡ m)
      artifacts_outcome x m (ok u, t) s = (
        record { finished = λ a q. s.finished u refl; some_sent = s.some_sent },
        λ a q. sym (ok-injective q),
      )
      artifacts_outcome x m (err e, t) s =
          (record { finished = λ a q. absurd (cc); some_sent = s.some_sent }, λ a q. absurd (cc))

      sent-Outcome :
          (cfg : ImportConfig) (services : Services) (signer : Signer) (x : Extracted)
          → cfg.signer ≡ some signer
          → extracted sum crypto yaml disk open_bundle mkdir_temp parse_scheme allow_insecure
              (open_bundle cfg.bundle_path)
              mkdir_temp
            ≡ ok x
          → Outcome cfg (
              import_extracted sum crypto yaml disk open_bundle mkdir_temp parse_scheme
                allow_insecure services signer
                (trim_right_slash cfg.api_base_url)
                x
                [])
      sent-Outcome cfg services signer x s r =
          lift-bind (Outcome cfg) (checked_manifest sum crypto yaml signer x.manifest_bytes) _ []
            (λ e. inl (e, refl))
            (λ m h.
              let sent =
                import_artifacts-Sends sum crypto yaml x sum_bytes services
                  (trim_right_slash cfg.api_base_url) m.artifacts nothing in
              let (all_sent, same) = artifacts_outcome x m _ sent in
              inr (
                x,
                m,
                record {
                  signer = signer;
                  configured = s;
                  read = r;
                  checked = checked_manifest-Verified signer _ h;
                },
                all_sent,
                same,
              ))

      outcome :
          (cfg : ImportConfig)
          → Outcome cfg (
              import_bundle sum crypto yaml disk open_bundle mkdir_temp parse_scheme allow_insecure
                cfg [])
      unfolding import_bundle
      outcome cfg =
          let stops : (e : ImportError) → Outcome cfg (err e, []) = λ e. inl (e, refl) in
          lift-bind (Outcome cfg)
            (checked_config sum crypto yaml disk open_bundle mkdir_temp parse_scheme allow_insecure
              cfg)
            _ [] stops
            (λ u c. lift-bind (Outcome cfg) (or_else s3_required cfg.s3) _ [] stops (λ services g.
              lift-bind (Outcome cfg) (or_else signer_required cfg.signer) _ [] stops (λ signer s.
                lift-bind (Outcome cfg)
                  (extracted sum crypto yaml disk open_bundle mkdir_temp parse_scheme allow_insecure
                    (open_bundle cfg.bundle_path) mkdir_temp)
                  _ [] stops
                  (λ x r.
                    sent-Outcome cfg services signer x (or_else-ok signer_required cfg.signer s)
                      r))))

      -- Where a digest is of bytes, whatever an import sends to the API and to S3, it sends a part of
      -- the artifacts of a manifest that the signer verifies, in its order, each registered before it is
      -- put, with a file of the archive of its size and digest, and with the checksum of that file.
      pub import_bundle-Sent :
          (cfg : ImportConfig)
          → let t =
              (import_bundle sum crypto yaml disk open_bundle mkdir_temp parse_scheme allow_insecure
                cfg []).1 in
            (t ≡ [])
            ⊎ ((x : Extracted) × (m : Manifest) × Accepted cfg x m
                × SomeSent sum crypto yaml x m.artifacts t)
      import_bundle-Sent cfg = elim (outcome cfg) [
        | inl (e, h) ↦ inl (ap (λ r. r.1) h)
        | inr (x, m, a, s, same) ↦ inr (x, m, a, s.some_sent)
      ]

      -- Where a digest is of bytes, an import that succeeds returns a manifest that the signer verifies,
      -- and has registered and put every artifact of it, in its order.
      pub import_bundle_ok :
          (cfg : ImportConfig) (t : List Event) {m : Manifest}
          → import_bundle sum crypto yaml disk open_bundle mkdir_temp parse_scheme allow_insecure
              cfg []
            ≡ (ok m, t)
          → (x : Extracted) × Accepted cfg x m × Sent sum crypto yaml x m.artifacts none [] t
      import_bundle_ok cfg t {m} h = elim (outcome cfg) [
        | inl (e, g) ↦ absurd (ok_ne_err (ap (λ r. r.0) (sym h ∙ g)))
        | inr (x, n, a, s, same) ↦
            let q : m ≡ n = same m (ap (λ r. r.0) h) in
            (
              x,
              subst (Accepted cfg x) (sym q) a,
              subst (λ z. Sent sum crypto yaml x z.artifacts none [] t) (sym q)
                  (subst (Sent sum crypto yaml x n.artifacts none []) (ap (λ r. r.1) h)
                    (s.finished m (ap (λ r. r.0) h))),
            )
      ]
