-- ===== src/Names/Jobs/Prefix.antt =====
-- A generated job name begins with the prefix of its type.
use aitrigram.Base.{
  ℕ, ◌-◌, ◌≡◌, sym, ap, ◌∙◌, ◌≢◌, inl, inr, some, [], ◌∷◌, ◌++◌, arith, leb, Bytes, length,
  Bool-cases, bind-eq-some,
}
use aitrigram.Names.Hash.{hash_string, slice_to}
use aitrigram.Names.Truncated.{join}
use aitrigram.Names.Jobs.{
  JobType, download, cleanup, job_prefix, max_len, available_for, name_of_repo, truncated_job_name,
  name_of_revision, generate_job_name,
}

-- The bytes that follow a prefix.
abbrev pub Follows : Bytes → Bytes → Type 0
Follows prefix name = (rest : Bytes) × (name ≡ prefix ++ rest)

Follows-of-some :
    (prefix rest : Bytes) {name : Bytes} → some (prefix ++ rest) ≡ some name → Follows prefix name
Follows-of-some prefix rest e = (rest, cc)

name_of_repo-Follows :
    (t : JobType) (repo name : Bytes)
    → name_of_repo t repo ≡ some name
    → Follows (job_prefix t) name
unfolding name_of_repo
name_of_repo-Follows t repo name h =
    let available : ℕ = max_len - length (job_prefix t) in
    elim (Bool-cases (leb (length repo) available)) [
      | inl fits ↦ Follows-of-some (job_prefix t) repo (rw fits at h)
      | inr long ↦
          let (truncated, cut, h') =
            bind-eq-some (slice_to (available - 7) repo) _ (rw long at h) in
          let (hash, six, built) = bind-eq-some (slice_to 6 (hash_string repo)) _ h' in
          Follows-of-some (job_prefix t) (join truncated hash) built
    ]

name_of_revision-Follows :
    (t : JobType) (repo revision name : Bytes)
    → name_of_revision t repo revision ≡ some name
    → Follows (job_prefix t) name
unfolding name_of_revision truncated_job_name
name_of_revision-Follows t repo revision name h =
    elim (Bool-cases (leb (length (join repo revision)) (available_for t))) [
      | inl fits ↦ Follows-of-some (job_prefix t) (join repo revision) (rw fits at h)
      | inr long ↦
          let (hash, six, built) =
            bind-eq-some (slice_to 6 (hash_string (join repo revision))) _ (rw long at h) in
          Follows-of-some (job_prefix t) _ built
    ]

generate_job_name-Follows :
    (t : JobType) (repo revision name : Bytes)
    → generate_job_name t repo revision ≡ some name
    → Follows (job_prefix t) name
unfolding generate_job_name
generate_job_name-Follows t repo [] name h = name_of_repo-Follows t repo name h
generate_job_name-Follows t repo (r ∷ revision) name h =
    name_of_revision-Follows t repo (r ∷ revision) name h

abbrev first : Bytes → ℕ
first [] = 0
first (b ∷ _) = b

-- A name that is generated for a download job is generated for no cleanup job, whatever the
-- repositories and the revisions.
pub generate_job_name-ne :
    (repo revision repo' revision' name : Bytes)
    → generate_job_name download repo revision ≡ some name
    → generate_job_name cleanup repo' revision' ≢ some name
generate_job_name-ne repo revision repo' revision' name h k =
    let (rest, e) = generate_job_name-Follows download repo revision name h in
    let (rest', e') = generate_job_name-Follows cleanup repo' revision' name k in
    omega (arith, ap first (sym e ∙ e'))
