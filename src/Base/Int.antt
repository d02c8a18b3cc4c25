-- ===== src/Base/Int.antt =====
-- int64 values, and what strconv reads and prints of them in base 10.
use Prim.Native.Nat.{ℕ, zero, suc, ◌+◌, ◌-◌, ◌*◌}
use Prim.Native.String.{String, ◌++◌ as ◌<>◌}
use Prim.Native.Char.{code}
use mathlib.Core.Path.{◌≡◌, refl}
use mathlib.Core.Bool.{◌&&◌}
use mathlib.Core.Option.{Option, none, some}
use dbt_rules.Base.Tests.{ltb, leb, nat_beq, if◌then◌else◌}
use dbt_rules.Base.Text.{decimal, quote}

-- `negsuc n` is -(n + 1).
pub data ℤ : Type 0 where
  pos : ℕ → ℤ
  negsuc : ℕ → ℤ

-- strconv.FormatInt(i, 10)
unfoldable pub format_int : ℤ → String
format_int (pos n) = decimal n
format_int (negsuc n) = "-" <> decimal (suc n)

-- The number that digits stand for, behind the number of the digits before them.
unfoldable pub parse_digits : ℕ → String → Option ℕ
parse_digits acc String.[] = some acc
parse_digits acc (String.◌∷◌ c s) =
    let rest = parse_digits (10 * acc + (code c - b'0')) s in
    if leb b'0' (code c) && leb (code c) b'9' then rest else none

-- A number: at least one digit.
unfoldable pub parse_nat : String → Option ℕ
unfolding parse_digits
parse_nat String.[] = none
parse_nat (String.◌∷◌ c s) = parse_digits 0 (String.◌∷◌ c s)

-- A value, which a failing call gives too, and the error's text.
pub record Parsed {ℓ} (A : Type ℓ) : Type ℓ where
  pub value : A
  pub error : Option String

abbrev pub max_magnitude : ℕ
max_magnitude = 9223372036854775808

parse_error : String → String → Parsed ℤ
parse_error s why = record {
  value = pos 0;
  error = some ("strconv.ParseInt: parsing " <> quote s <> ": " <> why);
}

positive : String → Option ℕ → Parsed ℤ
unfolding parse_error
positive s none = parse_error s "invalid syntax"
positive s (some n) =
    if ltb n max_magnitude
    then record { value = pos n; error = none }
    else record (parse_error s "value out of range") { value = pos (max_magnitude - 1) }

negative : String → Option ℕ → Parsed ℤ
unfolding parse_error
negative s none = parse_error s "invalid syntax"
negative s (some zero) = record { value = pos 0; error = none }
negative s (some (suc n)) =
    if ltb n max_magnitude
    then record { value = negsuc n; error = none }
    else record (parse_error s "value out of range") { value = negsuc (max_magnitude - 1) }

-- strconv.ParseInt(s, 10, 64)
unfoldable pub parse_int : String → Parsed ℤ
unfolding positive negative parse_nat parse_error
parse_int String.[] = parse_error "" "invalid syntax"
parse_int (String.◌∷◌ c s) =
    if nat_beq (code c) b'-'
    then negative (String.◌∷◌ c s) (parse_nat s)
    else if nat_beq (code c) b'+'
    then positive (String.◌∷◌ c s) (parse_nat s)
    else positive (String.◌∷◌ c s) (parse_nat (String.◌∷◌ c s))

int_tests :
    (parse_int "-42" ≡ record { value = negsuc 41; error = none })
    × (parse_int "+7" ≡ record { value = pos 7; error = none })
    × ((parse_int "9223372036854775808").value ≡ pos 9223372036854775807)
    × ((parse_int "4x").value ≡ pos 0)
    × (format_int (negsuc 41) ≡ "-42")
unfolding parse_int format_int decimal
int_tests = (refl, refl, refl, refl, refl)
