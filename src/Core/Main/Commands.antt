-- ===== src/Core/Main/Commands.antt =====
-- RULES/core/main.go and context.go: the rules that run and test targets, behind all builds.
use dbt_rules.Base.{
  String, ◌<>◌, ◌≡◌, refl, sym, ap, ap₂, ◌∙◌, ◌>>=◌, Option, none, some, List, [], ◌∷◌, ◌++◌, map,
  append-nil, append_assoc, ◌==◌, string_eq, if◌then◌else◌, Option-cases, Bool-cases, inl, inr, ok,
  ok-elim, >>=-eq-ok,
}
use dbt_rules.Base.Map.{Map, index, lookup}
use dbt_rules.Base.Text.{is_upper_first}
use dbt_rules.Base.Text.Paths.{base}
use dbt_rules.Core.Input.{GeneratorInput}
use dbt_rules.Core.Path.{FilePath, absolute}
use dbt_rules.Core.Step.{TargetRule}
use dbt_rules.Core.Context.{Context}
use dbt_rules.Core.Context.AddBuildStep.{Os}
use dbt_rules.Core.Context.Nesting.{Calls, run_calls}
use dbt_rules.Core.Target.{
  Target, Command, target_rule, run_rules, test_rules, command_rule, handle_target,
}
use dbt_rules.Core.Target.Rules.{rules_of, handle_target_rules}
use dbt_rules.Core.Main.{Variable, Listing, build_target, build_all}

-- What ninja runs in the console: the name, the command and what it waits for.
pub record InConsole : Type 0 where
  pub name : String
  pub command : String
  pub ins : List String

-- The rules of the console pool, in their order.
abbrev pub in_console : List TargetRule → List InConsole
in_console [] = []
in_console (r ∷ rs) =
    let rest = in_console rs in
    if index "" r.variables "pool" == "console"
    then record { name = r.target; command = index "" r.variables "command"; ins = r.ins } ∷ rest
    else rest

in_console-append :
    (xs ys : List TargetRule) → in_console (xs ++ ys) ≡ in_console xs ++ in_console ys
in_console-append [] ys = refl
in_console-append (x ∷ xs) ys = elim (Bool-cases (index "" x.variables "pool" == "console")) [
  | inl e ↦ rw e (
      ap
        (λ l. record { name = x.target; command = index "" x.variables "command"; ins = x.ins } ∷ l)
        (in_console-append xs ys))
  | inr e ↦ rw e (in_console-append xs ys)
]

module _ (input : GeneratorInput) where
  abbrev pub paths_of : Option (List FilePath) → List String
  paths_of none = []
  paths_of (some l) = map (absolute input) l

  -- The rule for a command: it waits for what the command needs and for the target itself.
  abbrev pub offered : String → String → List String → Option Command → List InConsole
  offered path suffix args none = []
  offered path suffix args (some c) =
      record { name = path <> suffix; command = c.command args; ins = paths_of c.deps ++ path ∷ [] }
      ∷ []

  -- A target that is public, and that can be run or tested.
  abbrev pub asked : String → Target → List InConsole
  asked path target =
      if is_upper_first (base path)
      then offered path "#run" input.run_args target.run
        ++ offered path "#test" input.test_args target.test
      else []

  in_console-run :
      (path : String) (target : Target)
      → in_console (run_rules input path target) ≡ offered path "#run" input.run_args target.run
  unfolding run_rules command_rule lookup
  in_console-run path target = elim (Option-cases target.run) [
    | inl e ↦ rw e refl
    | inr (c, e) ↦ rw e (elim (Option-cases c.deps) [ inl f ↦ rw f refl | inr (l, f) ↦ rw f refl ])
  ]

  in_console-test :
      (path : String) (target : Target)
      → in_console (test_rules input path target) ≡ offered path "#test" input.test_args target.test
  unfolding test_rules command_rule lookup
  in_console-test path target = elim (Option-cases target.test) [
    | inl e ↦ rw e refl
    | inr (c, e) ↦ rw e (elim (Option-cases c.deps) [ inl f ↦ rw f refl | inr (l, f) ↦ rw f refl ])
  ]

  in_console-rules_of :
      (path : String) (target : Target) (ctx : Context)
      → in_console (rules_of input path target ctx)
        ≡ offered path "#run" input.run_args target.run
          ++ offered path "#test" input.test_args target.test
  unfolding target_rule lookup
  in_console-rules_of path target ctx =
      in_console-append (run_rules input path target) (test_rules input path target)
      ∙ ap₂ ◌++◌ (in_console-run path target) (in_console-test path target)

  module _ (os : Os) (all : List String) (listing : Listing) (vars : Map String Variable) where
    -- What a path of the loop is built as.
    abbrev pub target_at : String → Option Target
    target_at path = elim (lookup path vars) [
      | none ↦ none
      | some v ↦ build_target input all listing path v
    ]

    abbrev pub asked_at : List String → List InConsole
    asked_at [] = []
    asked_at (path ∷ paths) =
        elim (target_at path) [ none ↦ [] | some t ↦ asked path t ] ++ asked_at paths

    -- Each target's build makes calls of the context, and nothing else.
    abbrev pub AllCalls : Type 0
    AllCalls =
        (path : String) (t : Target)
        → target_at path ≡ some t
        → (calls : Calls) × (t.build ≡ run_calls input os calls)

    handle_target-asked :
        (path : String) (t : Target) (calls : Calls) (ctx ctx' : Context)
        → t.build ≡ run_calls input os calls
        → handle_target input path t ctx ≡ ok ctx'
        → in_console ctx'.target_rules ≡ in_console ctx.target_rules ++ asked path t
    handle_target-asked path t calls ctx ctx' e h =
        ap in_console (handle_target_rules input os path t calls e ctx ctx' h)
        ∙ elim (Bool-cases (is_upper_first (base path))) [
          | inl u ↦ rw u (
              in_console-append ctx.target_rules (rules_of input path t ctx')
              ∙ ap (λ l. in_console ctx.target_rules ++ l) (in_console-rules_of path t ctx'))
          | inr u ↦ rw u (sym (append-nil (in_console ctx.target_rules)))
        ]

    build_all-skip :
        (path : String) (paths : List String) (ctx : Context)
        → target_at path ≡ none
        → build_all input all listing vars (path ∷ paths) ctx
          ≡ build_all input all listing vars paths ctx
    unfolding build_all
    build_all-skip path paths ctx e = elim (Option-cases (lookup path vars)) [
      | inl f ↦ rw (f, build_all) refl
      | inr (v, f) ↦ rw (f, build_all) (rw (rw (f, target_at) at e) refl)
    ]

    build_all-step :
        (path : String) (paths : List String) (ctx : Context) (t : Target)
        → target_at path ≡ some t
        → build_all input all listing vars (path ∷ paths) ctx
          ≡ (handle_target input path t ctx >>= λ c. build_all input all listing vars paths c)
    unfolding build_all
    build_all-step path paths ctx t e = elim (Option-cases (lookup path vars)) [
      | inl f ↦ cc (rw (f, target_at) at e)
      | inr (v, f) ↦ rw (f, build_all) (rw (rw (f, target_at) at e) refl)
    ]

    -- If each target is built by calls of the context, then behind a loop over paths that succeeds
    -- the console pool has got, in the order of the paths and behind the rules that it had, one
    -- rule for each target of the paths that is public and can be run, with the arguments for runs,
    -- and one for each that is public and can be tested, with the arguments for tests. Each waits
    -- for the files that its command needs and for the target.
    pub build_all-asked :
        (paths : List String) (ctx ctx' : Context)
        → AllCalls
        → build_all input all listing vars paths ctx ≡ ok ctx'
        → in_console ctx'.target_rules ≡ in_console ctx.target_rules ++ asked_at paths
    unfolding build_all
    build_all-asked [] ctx ctx' calls h =
        ok-elim (λ c. in_console c.target_rules ≡ in_console ctx.target_rules ++ []) h
          (sym (append-nil (in_console ctx.target_rules)))
    build_all-asked (path ∷ paths) ctx ctx' calls h = elim (Option-cases (target_at path)) [
      | inl e ↦
          build_all-asked paths ctx ctx' calls (sym (build_all-skip path paths ctx e) ∙ h)
          ∙ ap
              (λ o.
                in_console ctx.target_rules
                ++ (elim o [ none ↦ [] | some t ↦ asked path t ] ++ asked_at paths))
              (sym e)
      | inr (t, e) ↦
          let (mid, e1, h1) =
            >>=-eq-ok (handle_target input path t ctx)
              (λ c. build_all input all listing vars paths c)
              (sym (build_all-step path paths ctx t e) ∙ h) in
          let (own, is_own) = calls path t e in
          build_all-asked paths mid ctx' calls h1
          ∙ ap (λ l. l ++ asked_at paths) (handle_target-asked path t own ctx mid is_own e1)
          ∙ append_assoc (in_console ctx.target_rules) (asked path t) (asked_at paths)
          ∙ ap
              (λ o.
                in_console ctx.target_rules
                ++ (elim o [ none ↦ [] | some t ↦ asked path t ] ++ asked_at paths))
              (sym e)
    ]
