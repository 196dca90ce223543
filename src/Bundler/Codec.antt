-- ===== src/Bundler/Codec.antt =====
-- An instance of the interface of the YAML package, for the tests: numbers with the lengths before
-- the lists.
use goosed.Support.{
  some-injective, ℕ, zero, suc, ◌≡◌, ◌≢◌, refl, sym, ap, Option, none, some, List, [], ◌∷◌, length,
}
use goosed.Support.Text.{Text}
use goosed.Support.Strconv.{ℤ, pos, negsuc}
use goosed.Bundler.Manifest.{ManifestArtifact, Manifest, Yaml}

-- A way to write a value before other numbers, and to read it back.
pub record Coded (A : Type 0) : Type 0 where
  pub put : A → List ℕ → List ℕ
  pub get : List ℕ → A × List ℕ
  pub get-put : (a : A) (rest : List ℕ) → get (put a rest) ≡ (a, rest)

abbrev pub head_or : List ℕ → ℕ × List ℕ
head_or [] = (0, [])
head_or (n ∷ b) = (n, b)

abbrev pub coded_number : Coded ℕ
coded_number = record { put = λ n rest. n ∷ rest; get = head_or; get-put = λ n rest. refl }

abbrev pub integer_of : ℕ × List ℕ → ℤ × List ℕ
integer_of (zero, b) = (pos (head_or b).0, (head_or b).1)
integer_of (suc k, b) = (negsuc (head_or b).0, (head_or b).1)

abbrev pub put_integer : ℤ → List ℕ → List ℕ
put_integer (pos n) rest = 0 ∷ n ∷ rest
put_integer (negsuc n) rest = 1 ∷ n ∷ rest

pub get-put_integer :
    (z : ℤ) (rest : List ℕ) → integer_of (head_or (put_integer z rest)) ≡ (z, rest)
get-put_integer (pos n) rest = refl
get-put_integer (negsuc n) rest = refl

abbrev pub coded_integer : Coded ℤ
coded_integer = record {
  put = put_integer;
  get = λ b. integer_of (head_or b);
  get-put = get-put_integer;
}

module _ {A : Type 0} (c : Coded A) where
  unfoldable pub put_items : List A → List ℕ → List ℕ
  put_items [] rest = rest
  put_items (a ∷ items) rest = c.put a (put_items items rest)

  unfoldable pub get_items : ℕ → List ℕ → List A × List ℕ
  get_items zero b = ([], b)
  get_items (suc n) b =
      let first = c.get b in let rest = get_items n first.1 in (first.0 ∷ rest.0, rest.1)

  pub get_items-put_items :
      (items : List A) (rest : List ℕ)
      → get_items (length items) (put_items items rest) ≡ (items, rest)
  unfolding put_items get_items
  get_items-put_items [] rest = refl
  get_items-put_items (a ∷ items) rest =
      rw (c.get-put a (put_items items rest), get_items-put_items items rest) refl

  unfoldable pub get_list : List ℕ → List A × List ℕ
  get_list b = get_items (head_or b).0 (head_or b).1

  abbrev pub coded_list : Coded (List A)
  unfolding get_list
  coded_list = record {
    put = λ items rest. length items ∷ put_items items rest;
    get = get_list;
    get-put = get_items-put_items;
  }

abbrev pub coded_text : Coded Text
coded_text = coded_list coded_number

abbrev pub coded_texts : Coded (List Text)
coded_texts = coded_list coded_text

module _ {A B : Type 0} (c : Coded A) (d : Coded B) where
  unfoldable pub get_both : List ℕ → (A × B) × List ℕ
  get_both b = let first = c.get b in let second = d.get first.1 in ((first.0, second.0), second.1)

  pub get_both_lem : (p : A × B) (rest : List ℕ) → get_both (c.put p.0 (d.put p.1 rest)) ≡ (p, rest)
  unfolding get_both
  get_both_lem (a, b) rest = rw (c.get-put a (d.put b rest), d.get-put b rest) refl

  abbrev pub coded_both : Coded (A × B)
  unfolding get_both
  coded_both = record {
    put = λ p rest. c.put p.0 (d.put p.1 rest);
    get = get_both;
    get-put = get_both_lem;
  }

module _ {A B : Type 0} (c : Coded A) (to : B → A) (from : A → B)
    (h : (b : B) → from (to b) ≡ b) where
  abbrev pub coded_through : Coded B
  coded_through = record {
    put = λ b rest. c.put (to b) rest;
    get = λ b. (from (c.get b).0, (c.get b).1);
    get-put = λ b rest. rw (c.get-put (to b) rest, h b) refl;
  }

abbrev pub artifact_fields : ManifestArtifact → (Text × Text) × (ℤ × Text)
artifact_fields a = ((a.path, a.kind), (a.size, a.sha256))

abbrev pub fields_artifact : (Text × Text) × (ℤ × Text) → ManifestArtifact
fields_artifact ((p, k), (s, d)) = record { path = p; kind = k; size = s; sha256 = d }

abbrev pub coded_artifact : Coded ManifestArtifact
coded_artifact =
    coded_through
      (coded_both (coded_both coded_text coded_text) (coded_both coded_integer coded_text))
      artifact_fields fields_artifact (λ a. refl)

abbrev pub Fields : Type 0
Fields = ((Text × ℕ) × (Text × Text)) × ((Text × List Text) × List ManifestArtifact)

abbrev pub manifest_fields : Manifest → Fields
manifest_fields m = (
  ((m.version, m.created_at), (m.signer, m.signing_public_key)),
  ((m.signature, m.images), m.artifacts),
)

abbrev pub fields_manifest : Fields → Manifest
fields_manifest (((v, c), (s, k)), ((g, i), a)) = record {
  version = v;
  created_at = c;
  signer = s;
  signing_public_key = k;
  signature = g;
  images = i;
  artifacts = a;
}

abbrev pub coded_manifest : Coded Manifest
coded_manifest =
    coded_through
      (coded_both
        (coded_both (coded_both coded_text coded_number) (coded_both coded_text coded_text))
        (coded_both (coded_both coded_text coded_texts) (coded_list coded_artifact)))
      manifest_fields fields_manifest (λ m. refl)

abbrev pub marshalled : Manifest → List ℕ
marshalled m = 1 ∷ coded_manifest.put m []

abbrev pub unmarshalled : List ℕ → Option Manifest
unmarshalled [] = none
unmarshalled (n ∷ b) = some (coded_manifest.get b).0

pub unmarshalled_lem : (m : Manifest) → unmarshalled (marshalled m) ≡ some m
unmarshalled_lem m = ap (λ p. some p.0) (coded_manifest.get-put m [])

pub marshalled_ne :
    (m : Manifest) (bytes : List ℕ)
    → ◌≡◌ {A = Option (List ℕ)} (some (marshalled m)) (some bytes)
    → bytes ≢ []
marshalled_ne m bytes h n = cc

unfoldable pub coded_yaml : Yaml
coded_yaml = record {
  marshal = λ m. some (marshalled m);
  unmarshal = unmarshalled;
  unmarshal-marshal = λ m bytes h. rw (sym (some-injective h)) (unmarshalled_lem m);
  marshal_ne = marshalled_ne;
}
