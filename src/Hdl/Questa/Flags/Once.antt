-- ===== src/Hdl/Questa/Flags/Once.antt =====
-- RULES/hdl/questa.go: the libraries that a command names.
use dbt_rules.Base.{
  String, ◌≡◌, refl, sym, subst, ap, ◌∙◌, ◌&&◌, List, [], ◌∷◌, ◌++◌, map, arith, elem, Distinct,
  ◌==◌, string_eq, not, Bool-cases, inl, inr, if◌then◌else◌,
}
use dbt_rules.Base.Map.{lookup}
use dbt_rules.Base.Text.{split}
use dbt_rules.Hdl.Unique.{
  Unique, none_seen, push_all, none_seen-IsUnique, push_all-IsUnique, has-push_all,
}
use dbt_rules.Hdl.Simulation.{Simulation, Host}
use dbt_rules.Hdl.Questa.Flags.{lib_flags, new_libs, with_dash_l}

-- The libraries of the flag and of the rule, with repetitions.
abbrev pub all_libs : Host → Simulation → List String
all_libs host rule = split b' ' host.settings.simulator_lib_search ++ rule.libs

non_empty : List String → List String
non_empty [] = []
non_empty (lib ∷ libs) = let rest = non_empty libs in if lib == "" then rest else lib ∷ rest

self : String → String
self s = s

map-self : (l : List String) → map self l ≡ l
unfolding self
map-self [] = refl
map-self (x ∷ l) = ap (λ t. x ∷ t) (map-self l)

new_libs-push_all :
    (libs : List String) (u : Unique String) → new_libs libs u ≡ push_all self (non_empty libs) u
unfolding new_libs push_all non_empty self
new_libs-push_all [] u = refl
new_libs-push_all (lib ∷ libs) u = elim (Bool-cases (lib == "")) [
  | inl e ↦ simp (e, new_libs, non_empty, push_all, new_libs-push_all libs)
  | inr e ↦ simp (e, new_libs, non_empty, push_all, new_libs-push_all libs)
]

elem-non_empty :
    (k : String) (libs : List String) → elem k (non_empty libs) ≡ (not (k == "") && elem k libs)
unfolding non_empty
elem-non_empty k [] = ground arith
elem-non_empty k (lib ∷ libs) = ground (
  arith,
  elem-non_empty k libs,
  string_eq.beq_iff lib k,
  string_eq.beq_iff lib "",
  string_eq.beq_iff k "",
)

pub lib_flags_once :
    (host : Host) (rule : Simulation)
    → (libs : List String) × (lib_flags host rule ≡ with_dash_l libs)
      × Distinct libs
      × ((k : String) → elem k libs ≡ (not (k == "") && elem k (all_libs host rule)))
unfolding lib_flags lookup
lib_flags_once host rule =
    let all = all_libs host rule in
    let u = push_all self (non_empty all) none_seen in
    let unique = push_all-IsUnique self (non_empty all) none_seen (none_seen-IsUnique self) in
    (
      u.items,
      ap (λ (v : Unique String). with_dash_l v.items) (new_libs-push_all all none_seen),
      subst Distinct (map-self u.items) unique.distinct,
      λ k.
          ap (elem k) (sym (map-self u.items))
          ∙ sym (unique.same k)
          ∙ has-push_all self k (non_empty all) none_seen
          ∙ ap (elem k) (map-self (non_empty all))
          ∙ elem-non_empty k all,
    )
