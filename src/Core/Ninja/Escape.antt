-- ===== src/Core/Ninja/Escape.antt =====
-- RULES/core/context.go: `ninjaEscape`.
use Prim.Native.String.append
use text.Mathlib.TextEquality.{Char-path}
use dbt_rules.Base.{
  String, ◌<>◌, Char, code, ◌≡◌, sym, ap, ◌∙◌, Bool, true, false, nat_beq, Bool-cases, inl, inr,
  eq_of_beq, ◌==◌, nat_eq, if◌then◌else◌, arith, [], ◌∷◌, elem, Option, none, some,
}
use dbt_rules.Base.Text.{replace_char, char}
use dbt_rules.Core.Context.{ninja_escape}

-- The characters at which ninja's lexer ends a path: a space, a colon, a bar and the ends of lines.
abbrev ends_path : Char → Bool
ends_path c = elem (code c) (b' ' ∷ b':' ∷ b'|' ∷ 10 ∷ 13 ∷ [])

-- Behind a dollar sign, a space, a colon and a dollar sign stand for themselves. Other characters
-- start a variable or join lines, which this reader refuses.
abbrev stands : Char → Bool
stands c = elem (code c) (b' ' ∷ b':' ∷ b'$' ∷ [])

-- What is read, and the text behind it.
abbrev put : Char → Option (String × String) → Option (String × String)
put c none = none
put c (some (s, rest)) = some (String.◌∷◌ c s, rest)

-- How ninja reads a path of a build line; the flag is set behind a dollar sign.
unfoldable pub read_path : Bool → String → Option (String × String)
read_path false String.[] = some ("", "")
read_path true String.[] = none
read_path false (String.◌∷◌ c s) =
    let plain = put c (read_path false s) in
    let escaped = read_path true s in
    if code c == b'$' then escaped else if ends_path c then some ("", String.◌∷◌ c s) else plain
read_path true (String.◌∷◌ c s) =
    let plain = put c (read_path false s) in if stands c then plain else none

-- No character of the text but a space has a meaning for ninja.
abbrev pub Plain : String → Type 0
Plain String.[] = Unit
Plain (String.◌∷◌ c s) = (elem (code c) (b'$' ∷ b':' ∷ b'|' ∷ 10 ∷ 13 ∷ []) ≡ false) × Plain s

dollar-append : (t : String) → "$ " <> t ≡ String.◌∷◌ "$" (String.◌∷◌ " " t)
dollar-append t =
    append.cons "$" " " t
    ∙ ap (String.◌∷◌ "$") (append.cons " " "" t ∙ ap (String.◌∷◌ " ") (append.nil t))

char-append : (c : Char) (t : String) → char c <> t ≡ String.◌∷◌ c t
char-append c t = append.cons c "" t ∙ ap (String.◌∷◌ c) (append.nil t)

-- An escaped text by its first character, with a text behind it.
module _ (c : Char) (s t : String) where
  escape_space :
      nat_beq (code c) b' ' ≡ true
      → ninja_escape (String.◌∷◌ c s) <> t ≡ String.◌∷◌ "$" (String.◌∷◌ " " (ninja_escape s <> t))
  unfolding ninja_escape replace_char
  escape_space e = rw e (
      ap (λ u. u <> t) (dollar-append (replace_char b' ' "$ " s))
      ∙ append.cons "$" _ t
      ∙ ap (String.◌∷◌ "$") (append.cons " " _ t))

  escape_other :
      nat_beq (code c) b' ' ≡ false
      → ninja_escape (String.◌∷◌ c s) <> t ≡ String.◌∷◌ c (ninja_escape s <> t)
  unfolding ninja_escape replace_char
  escape_other e =
      rw e (ap (λ u. u <> t) (char-append c (replace_char b' ' "$ " s)) ∙ append.cons c _ t)

escape_none : (t : String) → ninja_escape "" <> t ≡ t
unfolding ninja_escape replace_char
escape_none t = append.nil t

read_other :
    (c : Char) (s : String)
    → elem (code c) (b'$' ∷ b':' ∷ b'|' ∷ 10 ∷ 13 ∷ []) ≡ false
    → nat_beq (code c) b' ' ≡ false
    → read_path false (String.◌∷◌ c s) ≡ put c (read_path false s)
unfolding read_path
read_other c s h e = ground (arith, h, e)

read_space : (t : String) → read_path false (" " <> t) ≡ some ("", " " <> t)
unfolding read_path
read_space t =
    ap (read_path false) (append.cons " " "" t)
    ∙ ap (λ u. some ("", u)) (sym (append.cons " " "" t))

-- A path with spaces that is escaped, and that has no dollar sign, colon, bar or end of a line, is
-- read by ninja as it was, up to the space behind it.
pub read_path-ninja_escape :
    (s rest : String)
    → Plain s
    → read_path false (ninja_escape s <> (" " <> rest)) ≡ some (s, " " <> rest)
unfolding read_path
read_path-ninja_escape String.[] rest h =
    ap (read_path false) (escape_none (" " <> rest)) ∙ read_space rest
read_path-ninja_escape (String.◌∷◌ c s) rest (here, there) =
    let t = " " <> rest in
    elim (Bool-cases (nat_beq (code c) b' ')) [
      | inl e ↦
          ap (read_path false) (escape_space c s t e)
          ∙ ap (λ r. put " " r) (read_path-ninja_escape s rest there)
          ∙ ap (λ d. some (String.◌∷◌ d s, t)) (Char-path " " c (sym (eq_of_beq (code c) b' ' e)))
      | inr e ↦
          ap (read_path false) (escape_other c s t e)
          ∙ read_other c (ninja_escape s <> t) here e
          ∙ ap (put c) (read_path-ninja_escape s rest there)
    ]
