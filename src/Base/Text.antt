-- ===== src/Base/Text.antt =====
-- What the program uses of Go's `strings`, `strconv`, `fmt`, `unicode` and `path`. A `String` is the
-- list of its characters. Letter case is that of ASCII.
pub mod Paths
use Prim.Native.Nat.{ℕ, zero, suc, ◌+◌, ◌-◌, ◌/◌, ◌%◌}
use Prim.Native.String.{String, ◌++◌ as ◌<>◌}
use Prim.Native.Char.{Char, code}
use mathlib.Core.Bool.{Bool, true, false, ◌&&◌, ◌||◌}
use mathlib.Core.List.{List, [], ◌∷◌}
use text.Mathlib.Text.{starts_with}
use dbt_rules.Base.Tests.{ltb, leb, nat_beq, ◌==◌, string_eq, if◌then◌else◌}

-- A text of one character.
abbrev pub char : Char → String
char c = String.◌∷◌ c String.[]

-- strings.HasPrefix
abbrev pub has_prefix : String → String → Bool
has_prefix s p = starts_with s p

-- strings.HasSuffix
unfoldable pub has_suffix : String → String → Bool
has_suffix String.[] t = t == ""
has_suffix (String.◌∷◌ c s) t = String.◌∷◌ c s == t || has_suffix s t

-- strings.TrimSuffix
unfoldable pub trim_suffix : String → String → String
trim_suffix String.[] t = ""
trim_suffix (String.◌∷◌ c s) t =
    let rest = trim_suffix s t in if String.◌∷◌ c s == t then "" else String.◌∷◌ c rest

-- What is left of a text behind a prefix that it has, and the text where it does not have it.
-- strings.TrimPrefix
unfoldable pub strip : String → String → String → String
strip whole s String.[] = s
strip whole String.[] (String.◌∷◌ d t) = whole
strip whole (String.◌∷◌ c s) (String.◌∷◌ d t) =
    let rest = strip whole s t in if nat_beq (code c) (code d) then rest else whole

unfoldable pub trim_prefix : String → String → String
unfolding strip
trim_prefix s t = strip s s t

-- strings.ReplaceAll(s, c, by), for one character c.
unfoldable pub replace_char : ℕ → String → String → String
replace_char n by String.[] = ""
replace_char n by (String.◌∷◌ c s) =
    (if nat_beq (code c) n then by else char c) <> replace_char n by s

-- The first field of a split takes one more character.
abbrev pub push : Char → List String → List String
push c [] = char c ∷ []
push c (x ∷ xs) = String.◌∷◌ c x ∷ xs

-- strings.Split(s, c), for one character c.
unfoldable pub split : ℕ → String → List String
split n String.[] = "" ∷ []
split n (String.◌∷◌ c s) =
    let rest = split n s in if nat_beq (code c) n then "" ∷ rest else push c rest

-- strings.Join
unfoldable pub join : String → List String → String
join sep [] = ""
join sep (x ∷ []) = x
join sep (x ∷ y ∷ xs) = x <> sep <> join sep (y ∷ xs)

abbrev pub digit : ℕ → String
digit zero = "0"
digit (suc zero) = "1"
digit (suc (suc zero)) = "2"
digit (suc (suc (suc zero))) = "3"
digit (suc (suc (suc (suc zero)))) = "4"
digit (suc (suc (suc (suc (suc zero))))) = "5"
digit (suc (suc (suc (suc (suc (suc zero)))))) = "6"
digit (suc (suc (suc (suc (suc (suc (suc zero))))))) = "7"
digit (suc (suc (suc (suc (suc (suc (suc (suc zero)))))))) = "8"
digit (suc (suc (suc (suc (suc (suc (suc (suc (suc zero))))))))) = "9"
digit n = ""

-- %d, by as many divisions as the fuel allows. `n + 1` divisions are enough for `n`.
decimal_fuel : ℕ → ℕ → String → String
decimal_fuel zero n acc = acc
decimal_fuel (suc f) n acc =
    let rest = decimal_fuel f (n / 10) (digit (n % 10) <> acc) in
    if ltb n 10 then digit n <> acc else rest

unfoldable pub decimal : ℕ → String
unfolding decimal_fuel
decimal n = decimal_fuel (suc n) n ""

unfoldable pub hex_digit : ℕ → ℕ → String
hex_digit letter n =
    if ltb n 10
    then digit n
    else if nat_beq n 10
    then (if nat_beq letter b'A' then "A" else "a")
    else if nat_beq n 11
    then (if nat_beq letter b'A' then "B" else "b")
    else if nat_beq n 12
    then (if nat_beq letter b'A' then "C" else "c")
    else if nat_beq n 13
    then (if nat_beq letter b'A' then "D" else "d")
    else if nat_beq n 14
    then (if nat_beq letter b'A' then "E" else "e")
    else (if nat_beq letter b'A' then "F" else "f")

-- %08X of a number below 2^32.
hex_upper : ℕ → ℕ → String → String
hex_upper zero n acc = acc
hex_upper (suc k) n acc = hex_upper k (n / 16) (hex_digit b'A' (n % 16) <> acc)

unfoldable pub hex8 : ℕ → String
unfolding hex_upper hex_digit
hex8 n = hex_upper 8 n ""

-- One character under %q (strconv.Quote). Characters from U+00A0 on are taken as printable.
unfoldable pub quote_char : Char → String
unfolding hex_digit
quote_char c =
    let n = code c in
    if nat_beq n 34
    then "\\\""
    else if nat_beq n 92
    then "\\\\"
    else if nat_beq n 7
    then "\\a"
    else if nat_beq n 8
    then "\\b"
    else if nat_beq n 12
    then "\\f"
    else if nat_beq n 10
    then "\\n"
    else if nat_beq n 13
    then "\\r"
    else if nat_beq n 9
    then "\\t"
    else if nat_beq n 11
    then "\\v"
    else if ltb n 32 || nat_beq n 127
    then "\\x" <> hex_digit b'a' (n / 16) <> hex_digit b'a' (n % 16)
    else if ltb 127 n && ltb n 160
    then "\\u00" <> hex_digit b'a' (n / 16) <> hex_digit b'a' (n % 16)
    else char c

quote_chars : String → String
quote_chars String.[] = "\""
quote_chars (String.◌∷◌ c s) = quote_char c <> quote_chars s

-- %q
unfoldable pub quote : String → String
unfolding quote_chars quote_char
quote s = "\"" <> quote_chars s

-- unicode.IsUpper([]rune(s)[0]), for a text that is not empty.
unfoldable pub is_upper_first : String → Bool
is_upper_first String.[] = false
is_upper_first (String.◌∷◌ c s) = leb b'A' (code c) && leb (code c) b'Z'

char_at : ℕ → String → String
char_at n String.[] = ""
char_at zero (String.◌∷◌ c s) = char c
char_at (suc n) (String.◌∷◌ c s) = char_at n s

lower_char : Char → String
unfolding char_at
lower_char c =
    if leb b'A' (code c) && leb (code c) b'Z'
    then char_at (code c - b'A') "abcdefghijklmnopqrstuvwxyz"
    else char c

-- strings.ToLower
unfoldable pub to_lower : String → String
unfolding lower_char
to_lower String.[] = ""
to_lower (String.◌∷◌ c s) = lower_char c <> to_lower s
