-- ===== src/Names/Truncated.antt =====
-- `TruncatedName` of llmengine_storage.go with its three callers, and the name by which the engine
-- controller looks a deployment up. `none` stands for a panic of Go's slice expression.
use aitrigram.Base.{
  ℕ, ◌+◌, ◌-◌, ◌/◌, ◌^◌, ◌≤◌, ◌<◌, String, ◌≡◌, ◌↔◌, inl, inr, Option, none, some, [], ◌∷◌, ◌++◌,
  arith, ltb, leb, if◌then◌else◌, Bytes, bytes, length, take, is_empty, ◌>>=◌, length-append,
  length-take, Bool-cases, none-ne-some, bind-eq-some, bind-eq-none, ◌≢◌, le→leb, leb→le, leb→lt,
}
use aitrigram.Names.Hash.{fnv32a, hash_string, slice_to, slice_to-length, slice_to-hash_string}

abbrev pub dash : ℕ
dash = b'-'

-- fmt.Sprintf("%s-%s", a, b)
abbrev pub join : Bytes → Bytes → Bytes
join a b = a ++ dash ∷ b

-- The name when nothing is cut: "{prefix}-{a}-{b}", or "{a}-{b}" without a prefix.
abbrev pub full_name : Bytes → Bytes → Bytes → Bytes
full_name prefix a b = if is_empty prefix then join a b else join prefix (join a b)

-- if len(s) > n { s = s[:n] }
unfoldable pub clip : ℕ → Bytes → Bytes
clip n s = if ltb n (length s) then take n s else s

abbrev separators : Bytes → ℕ
separators prefix = if is_empty prefix then 2 else 3

abbrev reserved : Bytes → Bytes → ℕ
reserved prefix hash = length prefix + separators prefix + length hash

-- The two halves of the space that is left, the second taking what the first leaves over.
cut_a : ℕ → Bytes → Bytes
cut_a available a = clip (available / 2) a

cut_b : ℕ → Bytes → Bytes → Bytes
cut_b available a b = clip (available - length (cut_a available a)) b

-- Go's `available` is negative where `reserved` passes `max_len`; one of the two slices then
-- panics, whatever the names.
with_hash : ℕ → Bytes → Bytes → Bytes → Bytes → Option Bytes
with_hash max_len prefix a b hash =
    let available = max_len - reserved prefix hash in
    let tail = join (cut_b available a b) hash in
    if leb (reserved prefix hash) max_len
    then some (full_name prefix (cut_a available a) tail)
    else none

unfoldable pub truncated_name : ℕ → Bytes → Bytes → Bytes → Option Bytes
unfolding with_hash cut_a cut_b
truncated_name max_len prefix a b =
    let full = full_name prefix a b in
    if leb (length full) max_len
    then some full
    else slice_to 6 (hash_string full) >>= with_hash max_len prefix a b

unfoldable pub llm_engine_pv_name : String → String → Option Bytes
llm_engine_pv_name engine model = truncated_name 63 (bytes "le") (bytes engine) (bytes model)

unfoldable pub llm_engine_pvc_name : String → String → Option Bytes
llm_engine_pvc_name engine model = truncated_name 63 (bytes "le") (bytes engine) (bytes model)

unfoldable pub component_name : String → String → Option Bytes
component_name engine model = truncated_name 52 [] (bytes engine) (bytes model)

-- deploymentName := fmt.Sprintf("%s-%s", llmEngine.Name, modelRepo.Name)
unfoldable pub deployment_name : String → String → Bytes
deployment_name engine model = join (bytes engine) (bytes model)

pub clip-length : (n : ℕ) (s : Bytes) → length (clip n s) ≤ n
unfolding clip
clip-length n s = ground (arith, length-take n s)

pub length-join : (a b : Bytes) → length (join a b) ≡ length a + length b + 1
length-join a b = omega (arith, length-append a (dash ∷ b))

length-full_name :
    (prefix a b : Bytes)
    → length (full_name prefix a b) + 1 ≡ length prefix + separators prefix + length a + length b
length-full_name [] a b = omega (arith, length-join a b)
length-full_name (p ∷ prefix) a b =
    omega (arith, length-join a b, length-join (p ∷ prefix) (join a b))

with_hash-length :
    (max_len : ℕ) (prefix a b hash name : Bytes)
    → with_hash max_len prefix a b hash ≡ some name
    → length name ≤ max_len
unfolding with_hash cut_b cut_a
with_hash-length max_len prefix a b hash name h =
    let available : ℕ = max_len - reserved prefix hash in
    let rest : Bytes = cut_b available a b in
    ground (
      arith,
      length-full_name prefix (cut_a available a) (join rest hash),
      length-join rest hash,
      clip-length (available / 2) a,
      clip-length (available - length (cut_a available a)) b,
    )

with_hash-ne-none :
    (max_len : ℕ) (prefix a b hash : Bytes)
    → length prefix + 9 ≤ max_len
    → slice_to 6 (hash_string (full_name prefix a b)) ≡ some hash
    → with_hash max_len prefix a b hash ≢ none
unfolding with_hash
with_hash-ne-none max_len prefix a b hash room cut =
    ground (arith, slice_to-length 6 (hash_string (full_name prefix a b)) hash cut)

-- Whatever the names, a name that TruncatedName returns is no longer than its limit.
pub truncated_name-length :
    (max_len : ℕ) (prefix a b name : Bytes)
    → truncated_name max_len prefix a b ≡ some name
    → length name ≤ max_len
unfolding truncated_name
truncated_name-length max_len prefix a b name h =
    elim (Bool-cases (leb (length (full_name prefix a b)) max_len)) [
      | inl fits ↦ ground arith
      | inr long ↦
          let (hash, cut, built) =
            bind-eq-some (slice_to 6 (hash_string (full_name prefix a b))) _ (rw long at h) in
          with_hash-length max_len prefix a b hash name built
    ]

-- With room for the prefix and nine bytes more, TruncatedName panics exactly for the names that
-- have to be cut and whose hash has fewer than six hexadecimal digits.
pub truncated_name-eq-none_iff :
    (max_len : ℕ) (prefix a b : Bytes)
    → length prefix + 9 ≤ max_len
    → (truncated_name max_len prefix a b ≡ none)
      ↔ ((max_len < length (full_name prefix a b)) × (fnv32a (full_name prefix a b) < 16 ^ 5))
unfolding truncated_name
truncated_name-eq-none_iff max_len prefix a b room =
    let full = full_name prefix a b in
    let short = slice_to-hash_string full in
    elim (Bool-cases (leb (length full) max_len)) [
      | inl fits ↦ rw fits (
        λ e. absurd (none-ne-some e),
        λ h. absurd (omega (arith, leb→le (length full) max_len fits)),
      )
      | inr long ↦
          let panics =
            bind-eq-none (slice_to 6 (hash_string full)) (with_hash max_len prefix a b)
              (λ hash. with_hash-ne-none max_len prefix a b hash room) in
          rw long (
            λ e. (leb→lt (length full) max_len long, short.0 (panics.0 e)),
            λ h. panics.1 (short.1 h.1),
          )
    ]

-- Names that fit are left as they are.
pub truncated_name-fits :
    (max_len : ℕ) (prefix a b : Bytes)
    → length (full_name prefix a b) ≤ max_len
    → truncated_name max_len prefix a b ≡ some (full_name prefix a b)
unfolding truncated_name
truncated_name-fits max_len prefix a b h = rw (le→leb _ _ h)

-- The engine controller reads the readiness of a deployment by the name "{engine}-{model}". It is
-- the name under which the deployment was applied exactly if it has 52 bytes at most.
pub component_name-eq-deployment_name_iff :
    (engine model : String)
    → (component_name engine model ≡ some (deployment_name engine model))
      ↔ (length (deployment_name engine model) ≤ 52)
unfolding component_name deployment_name
component_name-eq-deployment_name_iff engine model = (
  truncated_name-length 52 [] (bytes engine) (bytes model) _,
  truncated_name-fits 52 [] (bytes engine) (bytes model),
)
