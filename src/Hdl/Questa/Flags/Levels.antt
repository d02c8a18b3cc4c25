-- ===== src/Hdl/Questa/Flags/Levels.antt =====
-- RULES/hdl/questa.go and xsim.go: the verbosity levels.
use dbt_rules.Base.{
  String, ◌≡◌, refl, ◌⊎◌, inl, inr, Bool, true, false, List, [], ◌∷◌, arith, elem, ◌==◌, string_eq,
  not, eq_of_beq, subst, sym, Bool-cases, Result, ok, fail, exit,
}
use dbt_rules.Hdl.Questa.Flags.{verbosity_level_to_flag}
use dbt_rules.Hdl.Xsim.Simulate.{xsim_verbosity_level_to_flag}

abbrev pub levels : List String
levels = "none" ∷ "low" ∷ "medium" ∷ "high" ∷ "all" ∷ []

-- Whether the output is printed, where the level is accepted.
abbrev pub prints : Result (String × Bool) → Result Bool
prints (ok (flag, print)) = ok print
prints (fail e) = fail e

abbrev pub exits {ℓ} : {A : Type ℓ} → Result A → Bool
exits (ok a) = false
exits (fail (exit msg)) = true
exits (fail e) = false

-- What the test of a level is: the level itself, if it is equal.
split_level :
    (P : String → Type 0) (level known : String)
    → P known
    → ((level == known) ≡ false → P level)
    → P level
split_level P level known p q = elim (Bool-cases (level == known)) [
  | inl e ↦ subst P (sym (eq_of_beq level known e)) p
  | inr e ↦ q e
]

abbrev pub Accepted : String → Type 0
Accepted level =
    (elem level levels ≡ true)
    × (prints (verbosity_level_to_flag level) ≡ ok (not (level == "none")))
    × (prints (xsim_verbosity_level_to_flag level) ≡ ok (not (level == "none")))

abbrev pub Rejected : String → Type 0
Rejected level =
    (elem level levels ≡ false)
    × (exits (verbosity_level_to_flag level) ≡ true)
    × (exits (xsim_verbosity_level_to_flag level) ≡ true)

swap : (a b : String) → (a == b) ≡ false → (b == a) ≡ false
swap a b h = ground (arith, string_eq.beq_iff a b, string_eq.beq_iff b a)

-- Both simulators accept the same five verbosity levels and print the output at all of them but
-- "none". Any other level ends the run.
pub verbosity_levels : (level : String) → Accepted level ⊎ Rejected level
unfolding verbosity_level_to_flag xsim_verbosity_level_to_flag
verbosity_levels level =
    let P : String → Type 0 = λ l. Accepted l ⊎ Rejected l in
    split_level P level "none" (inl (refl, refl, refl)) λ a.
      split_level P level "low" (inl (refl, refl, refl)) λ b.
        split_level P level "medium" (inl (refl, refl, refl)) λ c.
          split_level P level "high" (inl (refl, refl, refl)) λ d.
            split_level P level "all" (inl (refl, refl, refl)) λ e. inr (
              rw (swap level "none" a) (
                  rw (swap level "low" b) (
                    rw (swap level "medium" c)
                      (rw (swap level "high" d) (rw (swap level "all" e) refl)))),
              rw a (rw b (rw c (rw d (rw e refl)))),
              rw a (rw b (rw c (rw d (rw e refl)))),
            )
