-- ===== src/Bundler/Tests/Imports.antt =====
-- Runs of Build and Import, and their theorems at concrete inputs.
use goosed.Support.{
  ◌≡◌, refl, true, false, Option, none, some, List, [], ◌∷◌, ◌⊎◌, ◌==◌, any, All, if◌then◌else◌,
}
use goosed.Support.Text.{
  lit, text_eq, text_eq_instance, trim_space, trim_left, trim_right, is_space, split, equal_fold,
  to_lower, lower_rune, has_prefix, cut_prefix,
}
use goosed.Support.Maps.{lookup, insert}
use goosed.Support.Hex.{hex_encode, hex_decode, digit_value}
use goosed.Support.Paths.{clean, join, join_slash, clean_components}
use goosed.Support.Strconv.{pos}
use goosed.Support.Results.{Result, ok, err}
use goosed.S3.{encode_sha256}
use goosed.Bundler.Manifest.{ManifestArtifact, Manifest}
use goosed.Bundler.Signer.{sign, verify}
use goosed.Bundler.Urls.{
  split_slash, parse_s3_url, infer_kind, has_suffix, ensure_https, image_lines,
}
use goosed.Bundler.Build.{
  WalkEntry, regular, directory, BuildConfig, Files, text_lt, insert_artifact, sort_artifacts,
  read_images_file, collect_artifacts, write_artifacts, write_bundle, build,
}
use goosed.Bundler.Extract.{ImportError, TarEntry, Extracted, Disk, extract}
use goosed.Bundler.Import.{
  Event, checked_config, Services, ImportConfig, stored, validate_artifact, upload,
  import_artifacts, checked_manifest, import_bundle,
}
use goosed.Bundler.Imported.{Sent, SomeSent}
use goosed.Bundler.Verified.{Accepted, import_bundle-Sent, import_bundle_ok}
use goosed.Bundler.Codec.{coded_yaml, put_items, get_items, get_list, get_both}
use goosed.Bundler.Instances.{test_crypto, test_sum, test_sum_bytes, length-test_sum}
use goosed.Support.Relative.{IsAbsolute, no_slash}
use goosed.Bundler.Built.{Stable}
use goosed.Bundler.Made.{Willing}
use goosed.Bundler.RoundTrip.{import_bundle-build}
use goosed.Bundler.Tests.{test_secret, test_signer, new_signer_run}

abbrev test_walked : List WalkEntry
test_walked =
    directory
    ∷ regular (lit "win/b.iso") (some (5 ∷ 6 ∷ []))
    ∷ regular (lit "a.zip") (some (7 ∷ []))
    ∷ []

abbrev test_files : Files
unfolding text_eq
test_files = record {
  walk = λ dir. some test_walked;
  read_file = λ path. some (lit "# none");
  create = λ path. true;
  contents = λ path.
      if text_eq path (lit "dir/a.zip")
      then some (7 ∷ [])
      else if text_eq path (lit "dir/win/b.iso")
      then some (5 ∷ 6 ∷ [])
      else none;
}

abbrev test_build_config : BuildConfig
test_build_config = record {
  artifacts_dir = lit "dir";
  images_file = lit "images";
  output = lit "out";
  signer = some test_signer;
  now = 9;
}

abbrev test_artifacts : List ManifestArtifact
unfolding hex_encode
test_artifacts =
    record {
      path = lit "a.zip";
      kind = lit "zip";
      size = pos 1;
      sha256 = hex_encode (test_sum (7 ∷ []));
    }
    ∷ record {
      path = lit "win/b.iso";
      kind = lit "iso";
      size = pos 2;
      sha256 = hex_encode (test_sum (5 ∷ 6 ∷ []));
    }
    ∷ []

collect_run :
    collect_artifacts test_sum [] (directory ∷ regular (lit "win/b.iso") (some (5 ∷ 6 ∷ [])) ∷ [])
    ≡ ok (
        record {
          path = lit "win/b.iso";
          kind = lit "iso";
          size = pos 2;
          sha256 = hex_encode (test_sum (5 ∷ 6 ∷ []));
        }
        ∷ [])
unfolding collect_artifacts infer_kind has_suffix has_prefix to_lower lower_rune
collect_run = refl

-- The signature of the manifest that is built, over its bytes without one.
abbrev test_archive : List (Option TarEntry)
unfolding build
test_archive =
    (build test_sum test_crypto coded_yaml (λ archive e. true) test_files test_build_config []).1

abbrev test_manifest : Manifest
unfolding build
test_manifest =
    elim (build test_sum test_crypto coded_yaml (λ archive e. true) test_files test_build_config
      []).0 [
        | ok m ↦ m
        | err e ↦ record {
          version = [];
          created_at = 0;
          signer = [];
          signing_public_key = [];
          signature = [];
          images = [];
          artifacts = [];
        }
      ]

abbrev test_services : Services
test_services = record {
  post = λ t url art. some (record {
    status = 201;
    response =
        some (record { artifact_url = []; s3_bucket = lit "bundles"; s3_key = 107 ∷ art.path });
  });
  accepts = λ t input. true;
}

abbrev test_disk : Disk
test_disk = record { mkdir_all = λ x path. true; create = λ x path. true }

abbrev test_import_config : ImportConfig
test_import_config = record {
  bundle_path = lit "out";
  api_base_url = lit "https://api/";
  s3 = some test_services;
  signer = some test_signer;
}

abbrev test_import : Result ImportError Manifest × List Event
unfolding import_bundle
test_import =
    import_bundle test_sum test_crypto coded_yaml test_disk (λ path. some test_archive)
      (some (lit "/tmp/b")) (λ url. some (lit "https")) false test_import_config []

import_run : test_import ≡ (ok test_manifest, test_import.1)
unfolding build collect_artifacts infer_kind has_suffix has_prefix to_lower lower_rune text_eq
    hex_encode sort_artifacts insert_artifact text_lt read_images_file image_lines trim_space
    trim_left trim_right is_space split sign write_bundle write_artifacts join clean
    clean_components join_slash test_crypto coded_yaml put_items get_items get_list get_both
    import_bundle ensure_https extract import_artifacts checked_manifest verify upload stored
    validate_artifact parse_s3_url split_slash cut_prefix lookup insert equal_fold encode_sha256
    hex_decode digit_value
import_run = refl

import_bundle-Sent_example :
    (test_import.1 ≡ [])
    ⊎ ((x : Extracted) × (m : Manifest) × Accepted test_sum test_crypto coded_yaml test_disk
          (λ path. some test_archive)
          (some (lit "/tmp/b"))
          (λ url. some (lit "https"))
          false
          test_import_config
          x
          m
        × SomeSent test_sum test_crypto coded_yaml x m.artifacts test_import.1)
unfolding test_import import_bundle
import_bundle-Sent_example =
    import_bundle-Sent test_sum test_crypto coded_yaml test_disk (λ path. some test_archive)
      (some (lit "/tmp/b")) (λ url. some (lit "https")) false test_sum_bytes test_import_config

import_bundle_ok_example :
    (x : Extracted) × Accepted test_sum test_crypto coded_yaml test_disk
      (λ path. some test_archive)
      (some (lit "/tmp/b"))
      (λ url. some (lit "https"))
      false
      test_import_config
      x
      test_manifest
    × Sent test_sum test_crypto coded_yaml x test_manifest.artifacts none [] test_import.1
unfolding import_bundle test_import test_manifest
import_bundle_ok_example =
    import_bundle_ok test_sum test_crypto coded_yaml test_disk (λ path. some test_archive)
      (some (lit "/tmp/b")) (λ url. some (lit "https")) false test_sum_bytes test_import_config
      test_import.1 import_run

build_made :
    build test_sum test_crypto coded_yaml (λ archive e. true) test_files test_build_config []
    ≡ (ok test_manifest, test_archive)
unfolding build collect_artifacts infer_kind has_suffix has_prefix to_lower lower_rune text_eq
    hex_encode sort_artifacts insert_artifact text_lt read_images_file image_lines trim_space
    trim_left trim_right is_space split sign write_bundle write_artifacts join clean
    clean_components join_slash test_crypto coded_yaml put_items
build_made = refl

any_run : any (λ c. c == 47) (lit "bundles") ≡ false
unfolding any
any_run = refl

test-Willing : Willing test_services
test-Willing = record {
  response =
      λ t url art. record { artifact_url = []; s3_bucket = lit "bundles"; s3_key = 107 ∷ art.path };
  answers = λ t url art. refl;
  bucket_ne = λ t url art h. cc;
  key_ne = λ t url art h. cc;
  bucket_plain = λ t url art. no_slash (lit "bundles") any_run;
  takes = λ t i. refl;
}

temp_absolute : IsAbsolute (lit "/tmp/b")
unfolding any text_eq join_slash
temp_absolute = record {
  below = lit "tmp/b";
  below_path = record {
    first = lit "tmp";
    others = lit "b" ∷ [];
    first_name = (refl, refl, refl, no_slash (lit "tmp") refl);
    other_names = ((refl, refl, refl, no_slash (lit "b") refl), tt);
    spelled = refl;
  };
  spelled = refl;
}

test-Stable : All (Stable test_sum test_files (lit "dir")) test_walked
unfolding any text_eq join_slash Stable join clean clean_components split
test-Stable = (
  tt,
  (
    (
      record {
        first = lit "win";
        others = lit "b.iso" ∷ [];
        first_name = (refl, refl, refl, no_slash (lit "win") refl);
        other_names = ((refl, refl, refl, no_slash (lit "b.iso") refl), tt);
        spelled = refl;
      },
      refl,
    ),
    (
      (
        record {
          first = lit "a.zip";
          others = [];
          first_name = (refl, refl, refl, no_slash (lit "a.zip") refl);
          other_names = tt;
          spelled = refl;
        },
        refl,
      ),
      tt,
    ),
  ),
)

config_run :
    checked_config test_sum test_crypto coded_yaml test_disk
      (λ path. some test_archive)
      (some (lit "/tmp/b"))
      (λ url. some (lit "https"))
      false
      test_import_config
    ≡ ok tt
unfolding ensure_https text_eq
config_run = refl

import_bundle-build_example :
    (t : List Event) × (import_bundle test_sum test_crypto coded_yaml test_disk
        (λ path. some test_archive)
        (some (lit "/tmp/b"))
        (λ url. some (lit "https"))
        false
        test_import_config
        []
      ≡ (ok test_manifest, t))
unfolding test_files
import_bundle-build_example =
    import_bundle-build test_sum test_crypto coded_yaml test_sum_bytes length-test_sum test_services
      test-Willing test_disk (lit "/tmp/b") temp_absolute (λ x path. refl) test_files (lit "dir")
      (λ archive e. true) (λ path. some test_archive) (λ url. some (lit "https")) false test_secret
      [] test_build_config test_import_config new_signer_run refl refl refl test-Stable build_made
      config_run refl refl refl
