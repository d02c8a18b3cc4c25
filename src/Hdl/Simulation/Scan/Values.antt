-- ===== src/Hdl/Simulation/Scan/Values.antt =====
-- fmt.Sscanf: a value that has no spaces is read as it is written.
use text.Mathlib.TextLemmas.{nil-append, cons-append}
use dbt_rules.Base.{
  String, ◌<>◌, ◌≡◌, ◌≢◌, refl, ap, ◌∙◌, false, ◌||◌, some, arith, ◌==◌, nat_eq, string_eq, code,
  beq_ne,
}
use dbt_rules.Base.Text.{strip, trim_prefix}
use dbt_rules.Hdl.Simulation.Scan.{line_feed, is_space, skip_space, token, non_empty, scan_string}

-- No character is a space or a line feed.
abbrev pub NoSpace : String → Type 0
NoSpace String.[] = Unit
NoSpace (String.◌∷◌ c s) = ((code c == line_feed || is_space (code c)) ≡ false) × NoSpace s

token_all : (s : String) → NoSpace s → token s ≡ s
unfolding token
token_all String.[] h = refl
token_all (String.◌∷◌ c s) (here, there) = rw here (ap (λ t. String.◌∷◌ c t) (token_all s there))

skip_none : (s : String) → NoSpace s → skip_space s ≡ some s
unfolding skip_space
skip_none String.[] h = refl
skip_none (String.◌∷◌ c s) (here, there) = ground (arith, here)

strip_own : (whole p s : String) → strip whole (p <> s) p ≡ s
unfolding strip
strip_own whole String.[] s = nil-append s
strip_own whole (String.◌∷◌ c p) s =
    ap (λ t. strip whole t (String.◌∷◌ c p)) (cons-append c p s)
    ∙ rw ((nat_eq.beq_iff (code c) (code c)).1 refl) (strip_own whole p s)

trim_own : (p s : String) → trim_prefix (p <> s) p ≡ s
unfolding trim_prefix
trim_own p s = strip_own (p <> s) p s

scan_at :
    (prefix arg value : String)
    → trim_prefix arg prefix ≡ value
    → NoSpace value
    → (value == "") ≡ false
    → scan_string prefix arg ≡ some value
unfolding scan_string non_empty
scan_at prefix arg value e h ne =
    rw (e, scan_string)
      (rw (skip_none value h, scan_string) (rw (token_all value h) (rw (ne, non_empty) refl)))

-- An argument "<prefix><value>", the value not empty and without spaces, is read as that value.
pub scan_string_value :
    (prefix value : String)
    → NoSpace value
    → value ≢ ""
    → scan_string prefix (prefix <> value) ≡ some value
scan_string_value prefix value h ne =
    scan_at prefix (prefix <> value) value (trim_own prefix value) h (beq_ne value "" ne)
