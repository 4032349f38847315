-- ===== src/Names/Jobs.antt =====
-- `generateJobName` of modelrepository_controller.go, by which a job is created and found again.
-- `none` stands for a panic of Go's slice expression.
pub mod Prefix
use aitrigram.Base.{
  ℕ, ◌+◌, ◌-◌, ◌*◌, ◌/◌, ◌^◌, ◌≤◌, ◌<◌, String, ◌≡◌, refl, ◌≢◌, ◌↔◌, inl, inr, Bool, true, false,
  Option, none, some, [], ◌∷◌, ◌++◌, arith, ltb, leb, if◌then◌else◌, Bytes, bytes, length, take,
  is_empty, ◌>>=◌, length-append, length-take, Bool-cases, bind-eq-some, bind-eq-none, none-ne-some,
  le→leb, leb→le, leb→lt,
}
use aitrigram.Names.Hash.{fnv32a, hash_string, slice_to, slice_to-length, slice_to-hash_string}
use aitrigram.Names.Truncated.{dash, join, clip, clip-length, length-join}

-- The callers pass "download" and "cleanup".
pub data JobType : Type 0 where
  download cleanup : JobType

abbrev pub job_type : JobType → Bytes
job_type download = bytes "download"
job_type cleanup = bytes "cleanup"

-- fmt.Sprintf("%s-", jobType)
abbrev pub job_prefix : JobType → Bytes
job_prefix t = job_type t ++ dash ∷ []

abbrev max_len : ℕ
max_len = 63

-- The branch for an empty revision. Its `available-7` is a slice bound, never past the end there.
name_of_repo : JobType → Bytes → Option Bytes
name_of_repo t repo =
    let prefix = job_prefix t in
    let available = max_len - length prefix in
    if leb (length repo) available
    then some (prefix ++ repo)
    else slice_to (available - 7) repo >>= λ truncated.
        slice_to 6 (hash_string repo) >>= λ hash. some (prefix ++ join truncated hash)

-- The lengths left for the two names: 60% for the repository, but eight bytes at least for it and
-- six for the revision.
abbrev Lengths : Type 0
Lengths = ℕ × ℕ

abbrev at_least_8 : ℕ → Lengths → Lengths
at_least_8 total (repo, revision) = if ltb repo 8 then (8, total - 8 - 1) else (repo, revision)

abbrev at_least_6 : ℕ → Lengths → Lengths
at_least_6 total (repo, revision) = if ltb revision 6 then (total - 6 - 1, 6) else (repo, revision)

shares : ℕ → Lengths
shares total =
    let repo = total * 3 / 5 in at_least_6 total (at_least_8 total (repo, total - repo - 1))

-- max_len - len(prefix) - len(separator)
abbrev available_for : JobType → ℕ
available_for t = max_len - length (job_prefix t) - 1

truncated_job_name : JobType → Bytes → Bytes → Bytes → Bytes
truncated_job_name t repo revision hash =
    let (repo_max, revision_max) = shares (available_for t - 7) in
    job_prefix t ++ join (clip repo_max repo) (join (clip revision_max revision) hash)

name_of_revision : JobType → Bytes → Bytes → Option Bytes
name_of_revision t repo revision =
    let combined = join repo revision in
    if leb (length combined) (available_for t)
    then some (job_prefix t ++ combined)
    else slice_to 6 (hash_string combined) >>= λ hash.
        some (truncated_job_name t repo revision hash)

unfoldable pub generate_job_name : JobType → Bytes → Bytes → Option Bytes
unfolding name_of_repo name_of_revision truncated_job_name shares
generate_job_name t repo revision =
    if is_empty revision then name_of_repo t repo else name_of_revision t repo revision

-- The two names get their share of the space, with one byte between them.
shares_of :
    (t : JobType)
    → let (repo, revision) = shares (available_for t - 7) in
      repo + revision + length (job_prefix t) + 9 ≡ max_len
unfolding shares
shares_of download = refl
shares_of cleanup = refl

length-job_prefix : (t : JobType) → length (job_prefix t) ≤ 9
length-job_prefix download = omega arith
length-job_prefix cleanup = omega arith

name_of_repo-length :
    (t : JobType) (repo name : Bytes) → name_of_repo t repo ≡ some name → length name ≤ max_len
unfolding name_of_repo
name_of_repo-length t repo name h =
    let available : ℕ = max_len - length (job_prefix t) in
    elim (Bool-cases (leb (length repo) available)) [
      | inl fits ↦ ground (arith, length-append (job_prefix t) repo, length-job_prefix t)
      | inr long ↦
          let (truncated, cut, h') =
            bind-eq-some (slice_to (available - 7) repo) _ (rw long at h) in
          let (hash, six, built) = bind-eq-some (slice_to 6 (hash_string repo)) _ h' in
          ground (
            arith,
            length-append (job_prefix t) (join truncated hash),
            length-join truncated hash,
            length-job_prefix t,
            slice_to-length (available - 7) repo truncated cut,
            slice_to-length 6 (hash_string repo) hash six,
          )
    ]

truncated_job_name-length :
    (t : JobType) (repo revision hash : Bytes)
    → length hash ≡ 6
    → length (truncated_job_name t repo revision hash) ≤ max_len
unfolding truncated_job_name
truncated_job_name-length t repo revision hash six =
    let (repo_max, revision_max) = shares (available_for t - 7) in
    let rest = join (clip revision_max revision) hash in
    omega (
      arith,
      six,
      shares_of t,
      length-append (job_prefix t) (join (clip repo_max repo) rest),
      length-join (clip repo_max repo) rest,
      length-join (clip revision_max revision) hash,
      clip-length repo_max repo,
      clip-length revision_max revision,
    )

name_of_revision-length :
    (t : JobType) (repo revision name : Bytes)
    → name_of_revision t repo revision ≡ some name
    → length name ≤ max_len
unfolding name_of_revision
name_of_revision-length t repo revision name h =
    elim (Bool-cases (leb (length (join repo revision)) (available_for t))) [
      | inl fits ↦
          ground (arith, length-append (job_prefix t) (join repo revision), length-job_prefix t)
      | inr long ↦
          let (hash, six, built) =
            bind-eq-some (slice_to 6 (hash_string (join repo revision))) _ (rw long at h) in
          ground (
            arith,
            slice_to-length 6 (hash_string (join repo revision)) hash six,
            truncated_job_name-length t repo revision hash,
          )
    ]

-- Whatever the names, a generated job name keeps the limit of 63 bytes.
pub generate_job_name-length :
    (t : JobType) (repo revision name : Bytes)
    → generate_job_name t repo revision ≡ some name
    → length name ≤ 63
unfolding generate_job_name
generate_job_name-length t repo [] name h = name_of_repo-length t repo name h
generate_job_name-length t repo (r ∷ revision) name h =
    name_of_revision-length t repo (r ∷ revision) name h

-- For a revision with a name, `generateJobName` panics exactly where the names have to be cut and
-- the hash of "{repo}-{revision}" has fewer than six hexadecimal digits.
pub generate_job_name-eq-none_iff :
    (t : JobType) (repo revision : Bytes)
    → revision ≢ []
    → (generate_job_name t repo revision ≡ none) ↔ (
        (63 < length (job_prefix t) + length (join repo revision) + 1)
        × (fnv32a (join repo revision) < 16 ^ 5))
unfolding generate_job_name name_of_revision
generate_job_name-eq-none_iff t repo [] named = absurd (named refl)
generate_job_name-eq-none_iff t repo (r ∷ revision) named =
    let combined : Bytes = join repo (r ∷ revision) in
    let room = length-job_prefix t in
    elim (Bool-cases (leb (length combined) (available_for t))) [
      | inl fits ↦ rw fits (
        λ e. absurd (none-ne-some e),
        λ h. absurd (omega (arith, h.0, room, leb→le (length combined) (available_for t) fits)),
      )
      | inr long ↦
          let panics =
            bind-eq-none (slice_to 6 (hash_string combined))
              (λ hash. some (truncated_job_name t repo (r ∷ revision) hash))
              (λ hash _. none-ne-some) in
          let few = slice_to-hash_string combined in
          rw long (
            λ e. (
              omega (arith, room, leb→lt (length combined) (available_for t) long),
              few.0 (panics.0 e),
            ),
            λ h. panics.1 (few.1 h.1),
          )
    ]

-- A name that fits is the prefix, the repository and the revision.
pub generate_job_name-fits :
    (t : JobType) (repo revision : Bytes)
    → revision ≢ []
    → length (job_prefix t) + length (join repo revision) + 1 ≤ 63
    → generate_job_name t repo revision ≡ some (job_prefix t ++ join repo revision)
unfolding generate_job_name name_of_revision
generate_job_name-fits t repo [] named fits = absurd (named refl)
generate_job_name-fits t repo (r ∷ revision) named fits =
    rw (le→leb (length (join repo (r ∷ revision))) (available_for t) (omega arith))
