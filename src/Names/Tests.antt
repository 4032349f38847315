-- ===== src/Names/Tests.antt =====
-- Names computed, and the theorems about names at concrete inputs.
use aitrigram.Base.{
  ◌+◌, ◌^◌, ◌≤◌, ◌<◌, ◌≡◌, refl, ◌≢◌, ◌↔◌, none, some, [], arith, Bytes, bytes, length,
}
use aitrigram.Names.Hash.{fnv32a, hash_string, slice_to}
use aitrigram.Names.Truncated.{
  join, full_name, clip, truncated_name, component_name, deployment_name, truncated_name-length,
  truncated_name-eq-none_iff, component_name-eq-deployment_name_iff,
}
use aitrigram.Names.Jobs.{
  download, cleanup, job_prefix, generate_job_name, generate_job_name-length,
  generate_job_name-eq-none_iff,
}
use aitrigram.Names.Jobs.Prefix.{generate_job_name-ne}
use aitrigram.Names.Collisions.{truncated_name_collides, generate_job_name_collides}

abbrev engine : Bytes
engine = bytes "mistral-7b-instruct-inference-server-production"

abbrev model : Bytes
model = bytes "mistral-7b-instruct"

abbrev cut_name : Bytes
cut_name = bytes "le-mistral-7b-instruct-infere-mistral-7b-instruct-109f0d"

main-ne-nil : bytes "main" ≢ []
main-ne-nil e = cc

c-ne-nil : bytes "c" ≢ []
c-ne-nil e = cc

hash_test : hash_string (bytes "foobar") ≡ bytes "bf9cf968"
unfolding hash_string
hash_test = refl

cut_test : truncated_name 63 (bytes "le") engine model ≡ some cut_name
unfolding truncated_name hash_string slice_to clip
cut_test = refl

job_tests :
    (generate_job_name download (bytes "m") (bytes "main") ≡ some (bytes "download-m-main"))
    × (generate_job_name cleanup (bytes "m") [] ≡ some (bytes "cleanup-m"))
unfolding generate_job_name
job_tests = (refl, refl)

-- A name whose hash is 0xc2ebd.
abbrev unlucky : Bytes
unlucky = bytes "mistral-7b-v4649"

panics : truncated_name 63 (bytes "le") engine unlucky ≡ none
unfolding truncated_name hash_string slice_to
panics = refl

truncated_name-length_example : length cut_name ≤ 63
truncated_name-length_example = truncated_name-length 63 (bytes "le") engine model cut_name cut_test

truncated_name-eq-none_iff_example : (truncated_name 63 (bytes "le") engine unlucky ≡ none) ↔ (
    (63 < length (full_name (bytes "le") engine unlucky))
    × (fnv32a (full_name (bytes "le") engine unlucky) < 16 ^ 5))
truncated_name-eq-none_iff_example =
    truncated_name-eq-none_iff 63 (bytes "le") engine unlucky (omega arith)

component_name-eq-deployment_name_iff_example :
    (component_name "chat" "llama" ≡ some (deployment_name "chat" "llama"))
    ↔ (length (deployment_name "chat" "llama") ≤ 52)
component_name-eq-deployment_name_iff_example = component_name-eq-deployment_name_iff "chat" "llama"

generate_job_name-length_example : length (bytes "download-m-main") ≤ 63
generate_job_name-length_example =
    generate_job_name-length download (bytes "m") (bytes "main") _ job_tests.0

generate_job_name-eq-none_iff_example :
    (generate_job_name download (bytes "m") (bytes "main") ≡ none) ↔ (
      (63 < length (job_prefix download) + length (join (bytes "m") (bytes "main")) + 1)
      × (fnv32a (join (bytes "m") (bytes "main")) < 16 ^ 5))
generate_job_name-eq-none_iff_example =
    generate_job_name-eq-none_iff download (bytes "m") (bytes "main") main-ne-nil

generate_job_name-ne_example :
    generate_job_name cleanup (bytes "m") (bytes "main") ≢ some (bytes "download-m-main")
generate_job_name-ne_example =
    generate_job_name-ne (bytes "m") (bytes "main") (bytes "m") (bytes "main")
      (bytes "download-m-main") job_tests.0

truncated_name_collides_example :
    truncated_name 52 [] (bytes "a-b") (bytes "c") ≡ truncated_name 52 [] (bytes "a") (bytes "b-c")
truncated_name_collides_example =
    truncated_name_collides 52 (bytes "a") (bytes "b") (bytes "c") (omega arith)

generate_job_name_collides_example :
    generate_job_name download (bytes "a-b") (bytes "c")
    ≡ generate_job_name download (bytes "a") (bytes "b-c")
generate_job_name_collides_example =
    generate_job_name_collides download (bytes "a") (bytes "b") (bytes "c") c-ne-nil (omega arith)
