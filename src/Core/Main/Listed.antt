-- ===== src/Core/Main/Listed.antt =====
-- RULES/core/main.go: which targets GeneratorMain lists, and which of them are selected.
use dbt_rules.Base.{
  String, ◌≡◌, refl, sym, ap, ◌∙◌, Bool, true, false, not, ◌&&◌, ◌||◌, Option, none, some, List, [],
  ◌∷◌, map, arith, elem, Distinct, ◌==◌, string_eq, eq_of_beq, Bool-cases, Option-cases, inl, inr,
  if◌then◌else◌, ok,
}
use dbt_rules.Base.Map.{Map, keys, lookup, lookup-insert}
use dbt_rules.Base.Text.{is_upper_first}
use dbt_rules.Base.Text.Paths.{base}
use dbt_rules.Core.Input.{Mode, mode_build, mode_list, mode_run, mode_test, mode_report, mode_flags}
use dbt_rules.Core.Target.{Target}
use dbt_rules.Core.Main.{
  TargetInfo, Variable, TargetFilter, Listing, empty_listing, matches_any, is_selected, skip_target,
  add_listed, list_target, list_targets,
}

abbrev or_this : {A : Type 0} → Option A → Option A → Option A
or_this (some a) b = some a
or_this none b = b

or_this-none : {A : Type 0} (o : Option A) → or_this o none ≡ o
or_this-none (some a) = refl
or_this-none none = refl

abbrev pub any : List (String → Bool) → String → Bool
any [] path = false
any (re ∷ res) path = re path || any res path

abbrev given : {A : Type 0} → Option A → Bool
given (some a) = true
given none = false

-- What is printed of a target.
abbrev pub known : Target → Variable → TargetInfo
known t v = record {
  description = elim t.description [ some text ↦ text | none ↦ "" ];
  runnable = given t.run;
  testable = given t.test;
  report = given v.report;
  selected = false;
}

-- Which targets a mode lists.
abbrev pub admits : Mode → Target → Variable → Bool
admits mode_run t v = given t.run && not (given v.report)
admits mode_test t v = given t.test && not (given v.report)
admits mode_report t v = true
admits _ t v = not (given v.report)

skip_target-admits :
    (m : Mode) (t : Target) (v : Variable) → skip_target m (known t v) ≡ not (admits m t v)
unfolding skip_target
skip_target-admits mode_build t v = ground arith
skip_target-admits mode_list t v = ground arith
skip_target-admits mode_run t v = ground arith
skip_target-admits mode_test t v = ground arith
skip_target-admits mode_report t v = ground arith
skip_target-admits mode_flags t v = ground arith

-- Whether the variable at a path is listed, and what is known of it then.
module _ (mode : Mode) (positive negative : List (String → Bool)) where
  abbrev pub filter : TargetFilter
  filter = record { positive = map some positive; negative = map some negative }

  abbrev pub chosen : String → Bool
  chosen path = any positive path && not (any negative path)

  -- What is known of a variable that is listed, before the filter is asked.
  abbrev pub entry : String → Variable → Option TargetInfo
  entry path v = if not (is_upper_first (base path)) then none else elim v.target [
    | none ↦ none
    | some t ↦ if admits mode t v then some (known t v) else none
  ]

  abbrev pub select : String → Option TargetInfo → Option TargetInfo
  select path none = none
  select path (some info) = some (record info { selected = chosen path })

  abbrev pub listed : String → Option Variable → Option TargetInfo
  listed path none = none
  listed path (some v) = select path (entry path v)

  abbrev add_entry : String → Listing → Option TargetInfo → Listing
  add_entry path l none = l
  add_entry path l (some info) = add_listed mode filter path info (chosen path) l

  after : String → Variable → Listing → Listing
  after path v l = add_entry path l (entry path v)

  matches_any-any :
      (res : List (String → Bool)) (path : String)
      → matches_any (map some res) path ≡ ok (any res path)
  unfolding matches_any
  matches_any-any [] path = refl
  matches_any-any (re ∷ res) path = ground (arith, matches_any-any res path)

  is_selected-chosen : (path : String) → is_selected filter path ≡ ok (chosen path)
  unfolding is_selected
  is_selected-chosen path =
      ground (arith, matches_any-any positive path, matches_any-any negative path)

  list_target-after :
      (path : String) (v : Variable) (l : Listing)
      → list_target mode filter path v l ≡ ok (after path v l)
  unfolding after list_target
  list_target-after path v l = elim (Bool-cases (is_upper_first (base path))) [
    | inr e ↦ simp (list_target, after, e)
    | inl e ↦ elim (Option-cases v.target) [
      | inl e' ↦ simp (list_target, after, e, e')
      | inr (t, e') ↦ elim (Bool-cases (admits mode t v)) [
        | inl f ↦
            simp
              (list_target, after, e, e', f, skip_target-admits mode t v, is_selected-chosen path)
        | inr f ↦ simp (list_target, after, e, e', f, skip_target-admits mode t v)
      ]
    ]
  ]

  lookup-add_entry :
      (path key : String) (l : Listing) (o : Option TargetInfo)
      → lookup key (add_entry path l o).targets ≡ (
          if path == key
          then or_this (select path o) (lookup key l.targets)
          else lookup key l.targets)
  unfolding add_listed
  lookup-add_entry path key l none = ground arith
  lookup-add_entry path key l (some info) = lookup-insert path key _ l.targets

  lookup_missing :
      (k : String) (m : Map String Variable) → elem k (keys m) ≡ false → lookup k m ≡ none
  unfolding lookup
  lookup_missing k [] h = refl
  lookup_missing k ((name, v) ∷ m) h =
      ground (arith, lookup_missing k m, string_eq.beq_iff k name, string_eq.beq_iff name k)

  here :
      (path key : String) (v : Variable) (vars : Map String Variable)
      → elem path (keys vars) ≡ false
      → (l : Listing)
      → or_this (listed key (lookup key vars)) (
          if path == key
          then or_this (select path (entry path v)) (lookup key l.targets)
          else lookup key l.targets)
        ≡ or_this
            (listed key (if path == key then some v else lookup key vars))
            (lookup key l.targets)
  here path key v vars new l = elim (Bool-cases (path == key)) [
    | inl e ↦
        let same = eq_of_beq path key e in
        let missing = sym (ap (λ k. lookup k vars) same) ∙ lookup_missing path vars new in
        simp (e, missing) (ap (λ k. or_this (select k (entry k v)) (lookup key l.targets)) same)
    | inr e ↦ simp e
  ]

  -- The loop over the variables, from what is listed already.
  list_targets-from :
      (vars : Map String Variable) (l : Listing)
      → Distinct (keys vars)
      → (l' : Listing) × (list_targets mode filter vars l ≡ ok l')
        × ((key : String)
            → lookup key l'.targets ≡ or_this (listed key (lookup key vars)) (lookup key l.targets))
  unfolding list_targets after lookup
  list_targets-from [] l d = (l, refl, λ key. refl)
  list_targets-from ((path, v) ∷ vars) l (new, d) =
      let (l', e, h) = list_targets-from vars (after path v l) d in
      (
        l',
        simp (list_target-after path v l, e),
        λ key.
            h key
            ∙ ap (or_this (listed key (lookup key vars)))
                (lookup-add_entry path key l (entry path v))
            ∙ here path key v vars new l,
      )

  -- When the patterns have compiled and no path stands twice, the loop ends without an error. It lists
  -- the variables that are targets, whose names start with an upper-case letter, and that the mode
  -- admits: to run, those that can be run; to test, those that can be tested; and reports in the mode
  -- for reports alone. A target is selected just when a positive pattern and no negative one matches
  -- its path.
  pub list_targets_exact :
      (vars : Map String Variable)
      → Distinct (keys vars)
      → (l' : Listing) × (list_targets mode filter vars empty_listing ≡ ok l')
        × ((key : String) → lookup key l'.targets ≡ listed key (lookup key vars))
  unfolding lookup
  list_targets_exact vars d =
      let (l', e, h) = list_targets-from vars empty_listing d in
      (l', e, λ key. h key ∙ or_this-none _)
