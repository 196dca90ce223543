-- ===== src/Artifacts/Tests.antt =====
-- Requests for a presigned URL, and the theorem at an input.
use goosed.Support.{ℕ, ◌*◌, ◌≤◌, ◌≡◌, refl, false, Option, some}
use goosed.Support.Text.{Text, lit, text_eq, trim_space, trim_left, trim_right, is_space}
use goosed.Support.Strconv.{atoi}
use goosed.Config.Env.{is_unset}
use goosed.Artifacts.{
  PresignRequest, presigned, failed, ttl_seconds, handle_get_presign, handle_get_presign_lem,
}

program : Unit {0}
unfolding handle_get_presign ttl_seconds atoi text_eq trim_space trim_left trim_right is_space
program = tt

-- A URL that is its key.
abbrev presign_get : Text → Text → ℕ → Option Text
presign_get bucket key ttl = some key

abbrev request : PresignRequest
request = record { method = lit "GET"; key = lit " k"; ttl = lit "7200" }

gives : handle_get_presign presign_get (lit "b") request ≡ presigned (lit "k")
unfolding program
gives = refl

capped : ttl_seconds (lit "7200") ≡ some 3600
unfolding program
capped = refl

refuses : handle_get_presign presign_get (lit "b") (record request { ttl = lit "-1" }) ≡ failed 400
unfolding program
refuses = refl

handle_get_presign_lem_example :
    (lit "GET" ≡ lit "GET")
    × (is_unset (trim_space (lit " k")) ≡ false)
    × ((n : ℕ) × (1 ≤ n)
        × (n ≤ 3600)
        × (presign_get (lit "b") (trim_space (lit " k")) (n * 1000000000) ≡ some (lit "k")))
handle_get_presign_lem_example = handle_get_presign_lem presign_get (lit "b") request gives
