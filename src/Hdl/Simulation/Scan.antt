-- ===== src/Hdl/Simulation/Scan.antt =====
-- What RULES/hdl uses of Go's fmt.Sscanf: a fixed text and then one `%s` or `%d`.
pub mod Values
use dbt_rules.Base.{
  ℕ, String, ◌<>◌, Bool, ◌&&◌, ◌||◌, Option, none, some, List, [], ◌∷◌, elem, leb, ◌==◌, nat_eq,
  string_eq, if◌then◌else◌, code,
}
use dbt_rules.Base.Int.{ℤ, Parsed, parse_int}
use dbt_rules.Base.Text.{char, trim_prefix}

-- The line feed is a space that no operand may follow.
abbrev line_feed : ℕ
line_feed = 10

spaces : List ℕ
spaces =
    0x09 ∷ 0x0B ∷ 0x0C ∷ 0x0D ∷ 0x20 ∷ 0x85 ∷ 0xA0 ∷ 0x1680 ∷ 0x2000 ∷ 0x2001 ∷ 0x2002 ∷ 0x2003
    ∷ 0x2004 ∷ 0x2005 ∷ 0x2006 ∷ 0x2007 ∷ 0x2008 ∷ 0x2009 ∷ 0x200A ∷ 0x2028 ∷ 0x2029 ∷ 0x202F
    ∷ 0x205F ∷ 0x3000 ∷ []

unfoldable pub is_space : ℕ → Bool
unfolding spaces
is_space c = elem c spaces

-- SkipSpace: none at a line feed.
unfoldable pub skip_space : String → Option String
unfolding is_space
skip_space String.[] = some ""
skip_space (String.◌∷◌ c s) =
    let rest = skip_space s in
    if code c == line_feed then none else if is_space (code c) then rest else some (String.◌∷◌ c s)

-- The text up to the next space or line feed.
unfoldable pub token : String → String
unfolding is_space
token String.[] = ""
token (String.◌∷◌ c s) =
    let rest = token s in if code c == line_feed || is_space (code c) then "" else String.◌∷◌ c rest

non_empty : String → Option String
non_empty s = if s == "" then none else some s

-- Sscanf(arg, prefix + "%s", &s) for an argument with the prefix; none is an error.
unfoldable pub scan_string : String → String → Option String
unfolding skip_space token non_empty trim_prefix
scan_string prefix arg = elim (skip_space (trim_prefix arg prefix)) [
  | none ↦ none
  | some s ↦ non_empty (token s)
]

digits : String → String
digits String.[] = ""
digits (String.◌∷◌ c s) =
    let rest = digits s in if leb b'0' (code c) && leb (code c) b'9' then String.◌∷◌ c rest else ""

-- The sign and the digits.
number : String → String
unfolding digits
number String.[] = ""
number (String.◌∷◌ c s) =
    if code c == b'+' || code c == b'-' then char c <> digits s else digits (String.◌∷◌ c s)

parsed : Parsed ℤ → Option ℤ
parsed p = elim p.error [ none ↦ some p.value | some err ↦ none ]

-- Sscanf(arg, prefix + "%d", &i) for an int64.
unfoldable pub scan_int : String → String → Option ℤ
unfolding skip_space number parsed parse_int trim_prefix
scan_int prefix arg = elim (skip_space (trim_prefix arg prefix)) [
  | none ↦ none
  | some s ↦ parsed (parse_int (number s))
]
