-- ===== src/S3.antt =====
-- pkg/s3/s3.go: Client.PutObject and encodeSHA256. The SDK's client is a parameter; base64 is one too.
use goosed.Support.{ℕ, Option, none, some, List, [], ◌∷◌}
use goosed.Support.Text.{Text}
use goosed.Support.Strconv.{ℤ}
use goosed.Support.Hex.{hex_decode, digit_value}
use goosed.Support.Results.{Method, fail}

-- s3.PutObjectInput, of which ChecksumAlgorithm is always SHA256; metadata_sha256 is the entry
-- of Metadata.
pub record PutObjectInput : Type 0 where
  pub bucket : Text
  pub key : Text
  pub body : List ℕ
  pub content_length : ℤ
  pub checksum_sha256 : Text
  pub metadata_sha256 : Text

abbrev encoded : (List ℕ → Text) → Option (List ℕ) → Option Text
encoded encode none = none
encoded encode (some raw) = some (encode raw)

-- encodeSHA256
unfoldable pub encode_sha256 : (List ℕ → Text) → Text → Option Text
unfolding hex_decode digit_value
encode_sha256 encode [] = none
encode_sha256 encode (c ∷ digest) = encoded encode (hex_decode (c ∷ digest))

module _ {S E : Type 0} (encode : List ℕ → Text)
    (api : PutObjectInput → Method S E (Unit {0})) where
  abbrev pub send :
      E → (bucket key : Text) → List ℕ → ℤ → Text → Option Text → Method S E (Unit {0})
  send e bucket key r size sha256 none = fail e
  send e bucket key r size sha256 (some checksum) = api (record {
    bucket = bucket;
    key = key;
    body = r;
    content_length = size;
    checksum_sha256 = checksum;
    metadata_sha256 = sha256;
  })

  -- Client.PutObject, where `e` is the error of a digest that is not one
  abbrev pub put_object : E → (bucket key : Text) → List ℕ → ℤ → Text → Method S E (Unit {0})
  put_object e bucket key r size sha256 =
      send e bucket key r size sha256 (encode_sha256 encode sha256)
