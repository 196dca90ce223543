-- ===== src/Bundler/Urls.antt =====
-- services/bundler/bundler.go: parseS3URL, ensureHTTPS, allowInsecureHTTP, inferKind and the lines of
-- readImagesFile. url.Parse is a parameter, of which the code reads the scheme.
use goosed.Support.{
  ◌≡◌, ◌≢◌, refl, Bool, true, not, ◌||◌, Option, none, some, List, [], ◌∷◌, ◌++◌, ◌==◌,
  if◌then◌else◌, any, keep, map, All, arith, reverse,
}
use goosed.Support.Text.{Text, lit, text_eq, to_lower, trim_space, has_prefix, cut_prefix, split}
use goosed.Support.Results.{Result, ok, err}

pub data UrlError : Type 0 where
  unsupported_url invalid_s3_url bad_url insecure_url : UrlError

-- strings.SplitN(s, "/", 2): the parts around the first slash, none where there is none
unfoldable pub split_slash : Text → Option (Text × Text)
split_slash [] = none
split_slash (c ∷ s) = elim (split_slash s) [
  | none ↦ if c == 47 then some ([], s) else none
  | some (a, b) ↦ if c == 47 then some ([], s) else some (c ∷ a, b)
]

abbrev both : Text × Text → Result UrlError (Text × Text)
both ([], _) = err invalid_s3_url
both (b ∷ bucket, []) = err invalid_s3_url
both (b ∷ bucket, k ∷ key) = ok (b ∷ bucket, k ∷ key)

abbrev parts : Option (Text × Text) → Result UrlError (Text × Text)
parts none = err invalid_s3_url
parts (some p) = both p

abbrev after_scheme : Option Text → Result UrlError (Text × Text)
after_scheme none = err unsupported_url
after_scheme (some trimmed) = parts (split_slash trimmed)

-- parseS3URL
unfoldable pub parse_s3_url : Text → Result UrlError (Text × Text)
unfolding cut_prefix split_slash
parse_s3_url url = after_scheme (cut_prefix url (lit "s3://"))

-- fmt.Sprintf("s3://%s/%s", bucket, key)
abbrev pub s3_url : Text → Text → Text
s3_url bucket key = lit "s3://" ++ (bucket ++ 47 ∷ key)

-- allowInsecureHTTP, of the value of GOOSED_ALLOW_INSECURE_HTTP
unfoldable pub allow_insecure_http : Text → Bool
unfolding to_lower trim_space text_eq any
allow_insecure_http value =
    any (text_eq (to_lower (trim_space value))) (lit "1" ∷ lit "true" ∷ lit "yes" ∷ lit "on" ∷ [])

abbrev with_scheme : Bool → Option Text → Result UrlError (Unit {0})
with_scheme allow none = err bad_url
with_scheme allow (some scheme) =
    if text_eq scheme (lit "https") then ok tt else if allow then ok tt else err insecure_url

-- ensureHTTPS
unfoldable pub ensure_https : (Text → Option Text) → Text → Bool → Result UrlError (Unit {0})
unfolding text_eq
ensure_https parse_scheme raw allow = with_scheme allow (parse_scheme raw)

-- strings.HasSuffix
unfoldable pub has_suffix : Text → Text → Bool
unfolding has_prefix
has_suffix s suffix = has_prefix (reverse s) (reverse suffix)

-- inferKind
unfoldable pub infer_kind : Text → Text
unfolding has_suffix to_lower
infer_kind path =
    let lower = to_lower path in
    if has_suffix lower (lit ".iso")
    then lit "iso"
    else if has_suffix lower (lit ".wim")
    then lit "wim"
    else if has_suffix lower (lit ".img")
    then lit "disk-image"
    else if has_suffix lower (lit ".qcow2")
    then lit "qcow2"
    else if has_suffix lower (lit ".vhd") || has_suffix lower (lit ".vhdx")
    then lit "vhd"
    else if has_suffix lower (lit ".tar.gz") || has_suffix lower (lit ".tgz")
    then lit "tar.gz"
    else if has_suffix lower (lit ".tar")
    then lit "tar"
    else if has_suffix lower (lit ".zip")
    then lit "zip"
    else lit "file"

abbrev is_comment : Text → Bool
is_comment [] = true
is_comment (c ∷ s) = c == 35

-- The loop of readImagesFile: an empty line and a comment are skipped.
unfoldable pub image_lines : Text → List Text
unfolding split trim_space keep
image_lines content = keep (λ l. not (is_comment l)) (map trim_space (split 10 content))

split_slash-append :
    (bucket key : Text)
    → All (λ c. c ≢ 47) bucket
    → split_slash (bucket ++ 47 ∷ key) ≡ some (bucket, key)
unfolding split_slash
split_slash-append [] key h = at_slash (split_slash key)
  where
    at_slash :
        (o : Option (Text × Text))
        → ◌≡◌ {A = Option (Text × Text)}
            (elim o [
              | none ↦ if 47 == 47 then some ([], key) else none
              | some (a, b) ↦ if 47 == 47 then some ([], key) else some (47 ∷ a, b)
            ])
            (some ([], key))
    at_slash none = refl
    at_slash (some (a, b)) = refl
split_slash-append (c ∷ bucket) key (n, h) =
    rw (split_slash-append bucket key h) (ground (arith, n))

-- The URL of a bucket and a key, both not empty and the bucket without a slash, is read back.
pub parse_s3_url-s3_url :
    (bucket key : Text)
    → bucket ≢ []
    → key ≢ []
    → All (λ c. c ≢ 47) bucket
    → parse_s3_url (s3_url bucket key) ≡ ok (bucket, key)
unfolding parse_s3_url cut_prefix
parse_s3_url-s3_url [] key n m h = absurd (n refl)
parse_s3_url-s3_url (b ∷ bucket) [] n m h = absurd (m refl)
parse_s3_url-s3_url (b ∷ bucket) (k ∷ key) n m h =
    rw (split_slash-append (b ∷ bucket) (k ∷ key) h) refl
