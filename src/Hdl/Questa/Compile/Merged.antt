-- ===== src/Hdl/Questa/Compile/Merged.antt =====
-- RULES/hdl/questa.go: the tool flags that an Ip adds to those of the Ips before it.
use dbt_rules.Base.{
  String, ◌<>◌, ◌≡◌, refl, sym, ap, ◌∙◌, false, Option, none, some, [], ◌∷◌, arith, elem, Distinct,
  ◌==◌, string_eq, eq_of_beq, Bool-cases, inl, inr,
}
use dbt_rules.Base.Map.{keys, lookup, insert, lookup-insert, elem-keys}
use dbt_rules.Hdl.Ip.{FlagMap}
use dbt_rules.Hdl.Simulation.{Simulation, Host}
use dbt_rules.Hdl.Questa.Compile.{appended, merge_flags}

-- The flag that is there, and the Ip's own behind it.
abbrev pub both : Option String → Option String → Option String
both none own = own
both (some v) none = some v
both (some v) (some own) = some (v <> " " <> own)

lookup-none : (k : String) (m : FlagMap) → elem k (keys m) ≡ false → lookup k m ≡ none
lookup-none k m h = ground (arith, elem-keys k m)

both-some : (o : Option String) (flag : String) → some (appended o flag flag) ≡ both o (some flag)
both-some none flag = refl
both-some (some v) flag = refl

both-none : (o : Option String) → o ≡ both o none
both-none none = refl
both-none (some v) = refl

module _ (host : Host) (rule : Simulation) where
  -- Behind the merge of an Ip's tool flags each tool has the flags that it had, and those that the
  -- Ip has for it behind them. The map of the Ip has no tool twice.
  pub lookup-merge_flags :
      (k : String) (own flags : FlagMap)
      → Distinct (keys own)
      → lookup k (merge_flags host rule own flags) ≡ both (lookup k flags) (lookup k own)
  unfolding merge_flags lookup
  lookup-merge_flags k [] flags d = both-none (lookup k flags)
  lookup-merge_flags k ((tool, flag) ∷ own) flags (new, d) =
      let value = appended (lookup tool flags) flag flag in
      lookup-merge_flags k own (insert tool value flags) d
      ∙ ap (λ o. both o (lookup k own)) (lookup-insert tool k value flags)
      ∙ elim (Bool-cases (tool == k)) [
        | inl e ↦ rw e (
            ap (λ t. both (some (appended (lookup t flags) flag flag)) (lookup k own))
              (eq_of_beq tool k e)
            ∙ ap (both (some (appended (lookup k flags) flag flag)))
                (lookup-none k own (ap (λ t. elem t (keys own)) (sym (eq_of_beq tool k e)) ∙ new))
            ∙ both-some (lookup k flags) flag)
        | inr e ↦ rw e refl
      ]
