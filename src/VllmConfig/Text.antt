-- ===== src/VllmConfig/Text.antt =====
-- Go's functions on strings as `ConvertArgsToVLLMConfig` uses them, character by character:
-- strings.Cut at the first "=", ReplaceAll of "-", Split at ".", TrimSpace, HasSuffix, and
-- strconv.Atoi for 64-bit numbers.
use Prim.Native.Char.{Char, code}
use aitrigram.Base.{
  ℕ, ◌+◌, ◌-◌, ◌*◌, ◌^◌, String, List, [], ◌∷◌, Bool, true, false, ◌&&◌, ◌||◌, Option, none, some,
  ltb, leb, nat_eq, if◌then◌else◌, ◌≡◌, refl,
}

-- The text before and after the first "=", if there is one.
after_cut : Char → Option (String × String) → Option (String × String)
after_cut c none = none
after_cut c (some (key, value)) = some (String.◌∷◌ c key, value)

unfoldable pub cut : String → Option (String × String)
unfolding after_cut
cut String.[] = none
cut (String.◌∷◌ c s) =
    let rest = after_cut c (cut s) in if nat_eq (code c) b'=' then some ("", s) else rest

unfoldable pub underscored : String → String
underscored String.[] = ""
underscored (String.◌∷◌ c s) = String.◌∷◌ (if nat_eq (code c) b'-' then "_" else c) (underscored s)

-- strings.Split(s, "."): never empty.
add_char : Char → List String → List String
add_char c [] = String.◌∷◌ c "" ∷ []
add_char c (s ∷ ss) = String.◌∷◌ c s ∷ ss

unfoldable pub split_dots : String → List String
unfolding add_char
split_dots String.[] = "" ∷ []
split_dots (String.◌∷◌ c s) =
    let rest = split_dots s in if nat_eq (code c) b'.' then "" ∷ rest else add_char c rest

unfoldable pub has_dot : String → Bool
has_dot String.[] = false
has_dot (String.◌∷◌ c s) = nat_eq (code c) b'.' || has_dot s

-- unicode.IsSpace
is_space : ℕ → Bool
is_space c =
    (leb 9 c && leb c 13)
    || nat_eq c 32
    || nat_eq c 0x85
    || nat_eq c 0xa0
    || nat_eq c 0x1680
    || (leb 0x2000 c && leb c 0x200a)
    || nat_eq c 0x2028
    || nat_eq c 0x2029
    || nat_eq c 0x202f
    || nat_eq c 0x205f
    || nat_eq c 0x3000

-- The first character that is no space, and the last one.
first_code : String → Option ℕ
first_code String.[] = none
first_code (String.◌∷◌ c s) =
    let rest = first_code s in if is_space (code c) then rest else some (code c)

or_code : Option ℕ → ℕ → Option ℕ
or_code none c = if is_space c then none else some c
or_code (some d) c = some d

last_code : String → Option ℕ
last_code String.[] = none
last_code (String.◌∷◌ c s) = or_code (last_code s) (code c)

is_code : ℕ → Option ℕ → Bool
is_code c none = false
is_code c (some d) = nat_eq d c

-- The trimmed value begins with "{" and ends with "}", or so with brackets.
unfoldable pub is_json_syntax : String → Bool
unfolding first_code last_code or_code is_code is_space
is_json_syntax value =
    (is_code b'{' (first_code value) && is_code b'}' (last_code value))
    || (is_code b'[' (first_code value) && is_code b']' (last_code value))

add_digit : ℕ → Option ℕ → Option ℕ
add_digit c none = none
add_digit c (some n) = if leb b'0' c && leb c b'9' then some (n * 10 + (c - b'0')) else none

digits : Option ℕ → String → Option ℕ
digits acc String.[] = acc
digits acc (String.◌∷◌ c s) = digits (add_digit (code c) acc) s

-- At least one digit.
magnitude : String → Option ℕ
magnitude String.[] = none
magnitude (String.◌∷◌ c s) = digits (some 0) (String.◌∷◌ c s)

-- A number that fits into 64 bits, by its sign and its magnitude. There is one zero.
in_range : Bool → Option ℕ → Option (Bool × ℕ)
in_range negative none = none
in_range true (some n) = if leb n (2 ^ 63) then some (ltb 0 n, n) else none
in_range false (some n) = if ltb n (2 ^ 63) then some (false, n) else none

-- strconv.Atoi: an optional sign, then digits.
unfoldable pub try_parse_int : String → Option (Bool × ℕ)
unfolding magnitude digits add_digit in_range
try_parse_int String.[] = none
try_parse_int (String.◌∷◌ c s) =
    if nat_eq (code c) b'-'
    then in_range true (magnitude s)
    else if nat_eq (code c) b'+'
    then in_range false (magnitude s)
    else in_range false (magnitude (String.◌∷◌ c s))

text_tests :
    (cut "--a=b=c" ≡ some ("--a", "b=c"))
    × (underscored "max-model-len" ≡ "max_model_len")
    × (split_dots "a.b.c" ≡ "a" ∷ "b" ∷ "c" ∷ [])
    × (is_json_syntax " {\"a\": 1} " ≡ true)
    × (try_parse_int "-042" ≡ some (true, 42))
    × (try_parse_int "9223372036854775808" ≡ none)
unfolding cut underscored split_dots is_json_syntax try_parse_int
text_tests = (refl, refl, refl, refl, refl, refl)
