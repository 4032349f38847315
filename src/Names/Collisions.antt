-- ===== src/Names/Collisions.antt =====
-- Pairs of names that the generated names do not tell apart.
use aitrigram.Base.{ℕ, ◌+◌, ◌≤◌, ◌≡◌, sym, ap, ◌∙◌, some, [], ◌∷◌, ◌++◌, Bytes, length, ◌≢◌}
use mathlib.Core.List.{append_assoc}
use aitrigram.Names.Truncated.{dash, join, truncated_name, truncated_name-fits}
use aitrigram.Names.Jobs.{JobType, generate_job_name, job_prefix, generate_job_name-fits}

join_assoc : (a b c : Bytes) → join (join a b) c ≡ join a (join b c)
join_assoc a b c = append_assoc a (dash ∷ b) (dash ∷ c)

join-ne-nil : (a b : Bytes) → join a b ≢ []
join-ne-nil [] b e = cc
join-ne-nil (x ∷ a) b e = cc

-- If the name fits, TruncatedName without a prefix gives the pair of a-b and c the name of the pair
-- of a and b-c.
pub truncated_name_collides :
    (max_len : ℕ) (a b c : Bytes)
    → length (join a (join b c)) ≤ max_len
    → truncated_name max_len [] (join a b) c ≡ truncated_name max_len [] a (join b c)
truncated_name_collides max_len a b c fits =
    let moved = join_assoc a b c in
    truncated_name-fits max_len [] (join a b) c (rw moved fits)
    ∙ ap some moved
    ∙ sym (truncated_name-fits max_len [] a (join b c) fits)

-- If the revision is not empty and the name fits into 63 bytes, the job of the revision c of the
-- repository a-b has the name of the job of the revision b-c of the repository a.
pub generate_job_name_collides :
    (t : JobType) (a b c : Bytes)
    → c ≢ []
    → length (job_prefix t) + length (join a (join b c)) + 1 ≤ 63
    → generate_job_name t (join a b) c ≡ generate_job_name t a (join b c)
generate_job_name_collides t a b c named fits =
    let moved = join_assoc a b c in
    generate_job_name-fits t (join a b) c named (rw moved fits)
    ∙ ap (λ n. some (job_prefix t ++ n)) moved
    ∙ sym (generate_job_name-fits t a (join b c) (join-ne-nil b c) fits)
