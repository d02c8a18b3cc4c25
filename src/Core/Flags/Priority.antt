-- ===== src/Core/Flags/Priority.antt =====
-- RULES/core/flags.go: `getFlagValues`, by the priority of the sources.
use dbt_rules.Base.{
  String, ◌≡◌, refl, ap, ◌∙◌, false, Option, none, some, [], ◌∷◌, arith, elem, Distinct, string_eq,
  ok, ok-elim,
}
use dbt_rules.Base.Int.{Parsed}
use dbt_rules.Base.Map.{Map, keys, lookup, insert, lookup-insert}
use dbt_rules.Core.Input.{GeneratorInput}
use dbt_rules.Core.Flags.Stored.{FlagsFile, copy_flags, persisted_flags, get_flag_values}

-- The first of two values that is there.
abbrev pub first_of : Option String → Option String → Option String
first_of (some v) w = some v
first_of none w = w

first_of-none : (o : Option String) → first_of o none ≡ o
first_of-none none = refl
first_of-none (some v) = refl

lookup_missing : (k : String) (m : Map String String) → elem k (keys m) ≡ false → lookup k m ≡ none
unfolding lookup
lookup_missing k [] h = refl
lookup_missing k ((name, v) ∷ m) h =
    ground (arith, lookup_missing k m, string_eq.beq_iff k name, string_eq.beq_iff name k)

lookup-copy_flags :
    (k : String) (m into : Map String String)
    → Distinct (keys m)
    → lookup k (copy_flags m into) ≡ first_of (lookup k m) (lookup k into)
unfolding copy_flags lookup
lookup-copy_flags k [] into d = refl
lookup-copy_flags k ((name, v) ∷ m) into (new, d) =
    lookup-copy_flags k m (insert name v into) d
    ∙ ground
        (arith, lookup_missing name m new, lookup-insert name k v into, string_eq.beq_iff name k)

-- A flag's value is that of the command line, or else that of FLAGS.json, or else that of the
-- workspace, and it has none where no source has one. No name stands twice in a source.
pub get_flag_values_priority :
    (input : GeneratorInput) (unmarshal : String → Parsed (Map String String)) (file : FlagsFile)
    (persisted values : Map String String)
    → persisted_flags input unmarshal file ≡ ok persisted
    → Distinct (keys input.cmdline_flags)
    → Distinct (keys persisted)
    → Distinct (keys input.workspace_flags)
    → get_flag_values input unmarshal file ≡ ok values
    → (name : String)
    → lookup name values
      ≡ first_of
          (lookup name input.cmdline_flags)
          (first_of (lookup name persisted) (lookup name input.workspace_flags))
unfolding get_flag_values lookup
get_flag_values_priority input unmarshal file persisted values e d1 d2 d3 h name =
    let lower = copy_flags persisted (copy_flags input.workspace_flags []) in
    ok-elim
      (λ m.
        lookup name m
        ≡ first_of (lookup name input.cmdline_flags)
            (first_of (lookup name persisted) (lookup name input.workspace_flags)))
      (rw e at h)
      (lookup-copy_flags name input.cmdline_flags lower d1
        ∙ ap (first_of (lookup name input.cmdline_flags)) (
            lookup-copy_flags name persisted (copy_flags input.workspace_flags []) d2
            ∙ ap (first_of (lookup name persisted))
                (lookup-copy_flags name input.workspace_flags [] d3 ∙ first_of-none _)))
