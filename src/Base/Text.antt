-- ===== src/Base/Text.antt =====
-- Byte strings. A Go string is a sequence of bytes, and the program cuts names between bytes; a
-- text is turned into the bytes of its UTF-8 encoding.
use Prim.Native.Nat.{ℕ, zero, suc, ◌+◌, ◌/◌, ◌%◌, ◌^◌, ◌<◌}
use Prim.Native.Char.{Char, code}
use Prim.Native.String
use Prim.Native.String.{String}
use mathlib.Core.Path.{◌≡◌, refl, sym, ap, ◌∙◌}
use mathlib.Core.Bool.{Bool, true, false}
use mathlib.Core.Logic.{inl, inr}
use Prim.Native.Nat.{Ordering}
use Prim.Native.String.{compare}
use mathlib.Core.Option.{Option, none, some, some-injective}
use mathlib.Core.List.{List, [], ◌∷◌, ◌++◌}
use native.Mathlib.Omega.{arith}
use text.Mathlib.Text.{◌==◌}
use text.Mathlib.TextEquality.{Char-path}
use text.Mathlib.TextLemmas.{nil-append, cons-append}
use aitrigram.Base.Tests.{ltb, nat_eq, Bool-cases, none-ne-some, if◌then◌else◌}

abbrev pub Bytes : Type 0
Bytes = List ℕ

abbrev utf8 : ℕ → Bytes
utf8 c =
    if ltb c 0x80
    then c ∷ []
    else if ltb c 0x800
    then (0xc0 + c / 0x40) ∷ (0x80 + c % 0x40) ∷ []
    else if ltb c 0x10000
    then (0xe0 + c / 0x1000) ∷ (0x80 + c / 0x40 % 0x40) ∷ (0x80 + c % 0x40) ∷ []
    else (0xf0 + c / 0x40000)
      ∷ (0x80 + c / 0x1000 % 0x40)
      ∷ (0x80 + c / 0x40 % 0x40)
      ∷ (0x80 + c % 0x40)
      ∷ []

abbrev pub bytes : String → Bytes
bytes String.[] = []
bytes (String.◌∷◌ c s) = utf8 (code c) ++ bytes s

-- s + t on texts
abbrev pub concat : String → String → String
concat s t = String.◌++◌ s t

-- s <= t, in the order of the bytes
abbrev pub before : String → String → Bool
before s t = elim (compare s t) [ Ordering.gt ↦ false | _ ↦ true ]

abbrev pub is_blank : String → Bool
is_blank s = s == ""

abbrev digit : ℕ → String
digit n =
    if nat_eq n 0
    then "0"
    else if nat_eq n 1
    then "1"
    else if nat_eq n 2
    then "2"
    else if nat_eq n 3
    then "3"
    else if nat_eq n 4
    then "4"
    else if nat_eq n 5
    then "5"
    else if nat_eq n 6
    then "6"
    else if nat_eq n 7
    then "7"
    else if nat_eq n 8
    then "8"
    else "9"

decimal_from : ℕ → ℕ → String → String
decimal_from zero n tail = tail
decimal_from (suc fuel) n tail =
    let rest = decimal_from fuel (n / 10) (concat (digit (n % 10)) tail) in
    if ltb n 10 then concat (digit n) tail else rest

-- fmt.Sprintf("%d", n) for a number that fits into 64 bits: twenty digits are enough.
unfoldable pub decimal : ℕ → String
unfolding decimal_from
decimal n = decimal_from 20 n ""

-- Any two bounds that are large enough for a number print the same digits.
decimal_from-enough :
    (f g n : ℕ) (tail : String)
    → n < 10 ^ suc f
    → n < 10 ^ suc g
    → decimal_from (suc f) n tail ≡ decimal_from (suc g) n tail
unfolding decimal_from
decimal_from-enough zero g n tail small fits = ground arith
decimal_from-enough (suc f) zero n tail fits small = ground arith
decimal_from-enough (suc f) (suc g) n tail hf hg =
    ground (arith, decimal_from-enough f g (n / 10) (concat (digit (n % 10)) tail))

decimal_test : decimal 11434 ≡ "11434"
unfolding decimal
decimal_test = refl

-- strings.HasPrefix and strings.TrimPrefix in one: what follows the prefix, if it is one.
unfoldable pub strip_prefix : String → String → Option String
strip_prefix String.[] s = some s
strip_prefix (String.◌∷◌ c p) String.[] = none
strip_prefix (String.◌∷◌ c p) (String.◌∷◌ d s) =
    if nat_eq (code c) (code d) then strip_prefix p s else none

pub strip_prefix-concat : (p s : String) → strip_prefix p (concat p s) ≡ some s
unfolding strip_prefix
strip_prefix-concat String.[] s = rw nil-append
strip_prefix-concat (String.◌∷◌ c p) s = rw cons-append (ground (arith, strip_prefix-concat p s))

codes_agree : (c d : Char) → nat_eq (code c) (code d) ≡ true → c ≡ d
codes_agree c d h = Char-path c d (ground arith)

pub concat_of_strip_prefix : (p s t : String) → strip_prefix p s ≡ some t → s ≡ concat p t
unfolding strip_prefix
concat_of_strip_prefix String.[] s t h = rw nil-append (cc)
concat_of_strip_prefix (String.◌∷◌ c p) String.[] t h = cc
concat_of_strip_prefix (String.◌∷◌ c p) (String.◌∷◌ d s) t h =
    elim (Bool-cases (nat_eq (code c) (code d))) [
      | inl same ↦
          rw (cons-append, codes_agree c d same, concat_of_strip_prefix p s t (rw same at h))
      | inr other ↦ absurd (none-ne-some (sym (rw other at h)))
    ]

pub concat_cancel : (p s t : String) → concat p s ≡ concat p t → s ≡ t
concat_cancel p s t e =
    some-injective _ _
      (sym (strip_prefix-concat p s) ∙ ap (strip_prefix p) e ∙ strip_prefix-concat p t)
