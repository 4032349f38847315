-- ===== src/Names/Hash.antt =====
-- `hashString` of modelrepository_controller.go, and the same lines inside `TruncatedName`: FNV-1a
-- over 32 bits of Go's hash/fnv, printed by "%x", which pads nothing.
use Prim.Native.Nat.{bit_xor}
use native.Mathlib.Nat.{pow-suc, one-le-pow}
use aitrigram.Base.{
  ℕ, zero, suc, ◌+◌, ◌-◌, ◌*◌, ◌/◌, ◌%◌, ◌^◌, ◌≤◌, ◌<◌, ◌≡◌, ◌↔◌, Option, none, some, [], ◌∷◌,
  arith, ltb, leb, if◌then◌else◌, length, take, Bytes, length-take, Bool-cases, leb→le, leb→lt,
  lt→ltb_no, inl, inr,
}

abbrev fnv_offset : ℕ
fnv_offset = 2166136261

abbrev fnv_prime : ℕ
fnv_prime = 16777619

fnv32a_from : ℕ → Bytes → ℕ
fnv32a_from h [] = h
fnv32a_from h (b ∷ bs) = fnv32a_from (bit_xor h b * fnv_prime % 2 ^ 32) bs

unfoldable pub fnv32a : Bytes → ℕ
unfolding fnv32a_from
fnv32a bs = fnv32a_from fnv_offset bs

abbrev pub hex_digit : ℕ → ℕ
hex_digit d = if ltb d 10 then b'0' + d else b'a' + (d - 10)

-- The digits of `n`, the last one pushed first; the fuel bounds their number.
hex_from : ℕ → ℕ → Bytes → Bytes
hex_from zero n acc = acc
hex_from (suc f) n acc =
    let more = hex_from f (n / 16) (hex_digit (n % 16) ∷ acc) in
    if ltb n 16 then hex_digit n ∷ acc else more

-- A 32-bit number has eight hexadecimal digits at most.
unfoldable pub hash_string : Bytes → Bytes
unfolding fnv32a hex_from
hash_string s = hex_from 8 (fnv32a s) []

-- s[:n], which panics past the end
unfoldable pub slice_to : ℕ → Bytes → Option Bytes
slice_to n s = if leb n (length s) then some (take n s) else none

-- The first digit is the leading one, so that the number of digits is that of the number.
hex_from-length_lt : (n : ℕ) → n < 16 ^ 5 → length (hex_from 8 n []) < 6
unfolding hex_from
hex_from-length_lt n h = ground arith

hex_from-grows : (f n : ℕ) (acc : Bytes) → length acc < length (hex_from (suc f) n acc)
unfolding hex_from
hex_from-grows zero n acc = ground arith
hex_from-grows (suc f) n acc = ground (arith, hex_from-grows f (n / 16) (hex_digit (n % 16) ∷ acc))

power_step : (k n : ℕ) → 16 ^ suc k ≤ n → (16 ^ k ≤ n / 16) × (16 ≤ n)
power_step k n h =
    (omega (arith, pow-suc 16 k), omega (arith, pow-suc 16 k, one-le-pow k 16 (omega arith)))

-- `16 ^ k ≤ n` makes more than `k` digits, if the fuel allows.
hex_from-long :
    (f k n : ℕ) (acc : Bytes) → 16 ^ k ≤ n → k < f → k + length acc < length (hex_from f n acc)
unfolding hex_from
hex_from-long zero k n acc h lt = absurd (omega arith)
hex_from-long (suc f) zero n acc h lt = omega (arith, hex_from-grows f n acc)
hex_from-long (suc f) (suc k) n acc h lt =
    let (smaller, big) = power_step k n h in
    let rest = hex_from-long f k (n / 16) (hex_digit (n % 16) ∷ acc) smaller (omega arith) in
    rw (lt→ltb_no n 16 big) (omega (arith, rest))

-- Six digits can be cut off exactly from the hashes that have six.
pub hash_string-length : (s : Bytes) → (6 ≤ length (hash_string s)) ↔ (16 ^ 5 ≤ fnv32a s)
unfolding hash_string
hash_string-length s = (
  λ h. elim (Bool-cases (leb (16 ^ 5) (fnv32a s))) [
    | inl big ↦ leb→le (16 ^ 5) (fnv32a s) big
    | inr small ↦
        absurd (omega (arith, hex_from-length_lt (fnv32a s) (leb→lt (16 ^ 5) (fnv32a s) small)))
  ],
  λ h. omega (arith, hex_from-long 8 5 (fnv32a s) [] h (omega arith)),
)

pub slice_to-length : (n : ℕ) (s t : Bytes) → slice_to n s ≡ some t → length t ≡ n
unfolding slice_to
slice_to-length n s t h = ground (arith, length-take n s)

pub slice_to_iff : (n : ℕ) (s : Bytes) → (slice_to n s ≡ none) ↔ (length s < n)
unfolding slice_to
slice_to_iff n s = ground arith

-- `hashString(s)[:6]` panics exactly where "%x" prints fewer than six digits.
pub slice_to-hash_string : (s : Bytes) → (slice_to 6 (hash_string s) ≡ none) ↔ (fnv32a s < 16 ^ 5)
slice_to-hash_string s =
    let panics = slice_to_iff 6 (hash_string s) in
    let digits = hash_string-length s in
    (
      λ e. elim (Bool-cases (leb (16 ^ 5) (fnv32a s))) [
        | inl big ↦ absurd (omega (arith, panics.0 e, digits.1 (leb→le (16 ^ 5) (fnv32a s) big)))
        | inr small ↦ leb→lt (16 ^ 5) (fnv32a s) small
      ],
      λ h. elim (Bool-cases (leb 6 (length (hash_string s)))) [
        | inl six ↦ absurd (omega (arith, h, digits.0 (leb→le 6 (length (hash_string s)) six)))
        | inr short ↦ panics.1 (leb→lt 6 (length (hash_string s)) short)
      ],
    )
