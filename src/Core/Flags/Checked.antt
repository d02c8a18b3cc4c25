-- ===== src/Core/Flags/Checked.antt =====
-- RULES/core/flags.go: what `initializeFlag` accepts.
use dbt_rules.Base.{
  beq_refl, ◌<>◌, ℕ, String, ◌≡◌, refl, ◌∙◌, Bool, true, false, none, some, arith, get_elem?,
  get_elem?-set_self, lt_of_get_elem?, string_eq, Option-cases, inl, inr, Result, ok, >>=-eq-ok,
  ok-elim, if◌then◌else◌,
}
use dbt_rules.Base.Map.{Map, has, lookup, insert, lookup-insert}
use dbt_rules.Core.Input.{GeneratorInput, fatal}
use dbt_rules.Core.Flags.{
  Flag, Floats, FlagState, flag_info, choose_value, set_from_string, set_to_default, is_allowed,
  check_allowed, initialize, initialize_flag, message,
}

module _ (input : GeneratorInput) {F : Type 0} (floats : Floats F)
    (live : input.completions_only ≡ false) where
  -- What the state holds behind the initialisation of the flag at a position.
  pub record Initialized (id : ℕ) (flag : Flag F) (st st' : FlagState F) : Type 0 where
    pub unlocked : st.flags_locked ≡ false
    pub new_name : lookup flag.name st.registered_flags ≡ none
    pub registered : lookup flag.name st'.registered_flags ≡ some id
    pub accepted :
        (f : Flag F) × (get_elem? st'.flags id ≡ some f)
        × (f.name ≡ flag.name)
        × (f.is_initialized ≡ true)
        × (is_allowed input floats (flag_info input floats f) ≡ true)

  choose_value-keeps :
      (values : Map String String) (flag f : Flag F)
      → choose_value input floats values flag ≡ ok f
      → (f.name ≡ flag.name) × (f.is_initialized ≡ flag.is_initialized)
  unfolding choose_value
  choose_value-keeps values flag f h = elim (Option-cases (lookup flag.name values)) [
    | inl e ↦ elim (Option-cases (set_to_default flag.body)) [
      | inl e' ↦ ground (arith, e, e', live, h)
      | inr (body, e') ↦ ground (arith, e, e', h)
    ]
    | inr (value, e) ↦
        let (body, e1, e2) =
          >>=-eq-ok (set_from_string input floats flag.name value flag.body)
            (λ b. ok (record flag { body = b })) (rw (e, choose_value) at h) in
        ok-elim (λ f. (f.name ≡ flag.name) × (f.is_initialized ≡ flag.is_initialized)) e2
          (refl, refl)
  ]

  check_allowed_sound :
      (f : Flag F) {u : Unit {0}}
      → check_allowed input floats f ≡ ok u
      → is_allowed input floats (flag_info input floats f) ≡ true
  unfolding check_allowed fatal
  check_allowed_sound f h = ground (arith, live, h)

  has-lookup : (k : String) (m : Map String ℕ) → has k m ≡ false → lookup k m ≡ none
  has-lookup k m h = ground (arith, h)

  lookup-insert_self : (k : String) (v : ℕ) (m : Map String ℕ) → lookup k (insert k v m) ≡ some v
  lookup-insert_self k v m = lookup-insert k k v m ∙ simp beq_refl

  -- The two tests that open an initialisation.
  unless : Bool → String → Result (Unit {0})
  unless b msg = if b then message input floats msg else ok tt

  unless-ok : (b : Bool) (msg : String) {u : Unit {0}} → unless b msg ≡ ok u → b ≡ false
  unfolding unless fatal
  unless-ok b msg h = ground (arith, live, h)

  locked_message : Flag F → String
  locked_message flag = "flag '" <> flag.name <> "' accessed, but not reistered"

  name_message : Flag F → String
  name_message flag = "multiple flags with name '" <> flag.name <> "'"

  -- When a flag that is not initialised is, in a run that is not for completions: the flags were not
  -- locked, its name was new and stands for it now, and its value is one of those it allows.
  pub initialize_flag_accepts :
      (id : ℕ) (flag : Flag F) (st st' : FlagState F)
      → get_elem? st.flags id ≡ some flag
      → flag.is_initialized ≡ false
      → initialize_flag input floats id st ≡ ok st'
      → Initialized id flag st st'
  unfolding initialize_flag initialize unless locked_message name_message
  initialize_flag_accepts id flag st st' e fresh h =
      let h0 = rw (e, fresh, initialize_flag) at h in
      let (_, e1, h1) = >>=-eq-ok (unless st.flags_locked (locked_message flag)) _ h0 in
      let (_, e2, h2) =
        >>=-eq-ok (unless (has flag.name st.registered_flags) (name_message flag)) _ h1 in
      let (f, e3, h3) =
        >>=-eq-ok (choose_value input floats st.flag_values (record flag { is_initialized = true }))
          _ h2 in
      let (_, e4, h4) = >>=-eq-ok (check_allowed input floats f) _ h3 in
      let (named, started) =
        choose_value-keeps st.flag_values (record flag { is_initialized = true }) f e3 in
      ok-elim (Initialized id flag st) h4 (record {
        unlocked = unless-ok st.flags_locked _ e1;
        new_name = has-lookup flag.name st.registered_flags (unless-ok _ _ e2);
        registered = lookup-insert_self flag.name id st.registered_flags;
        accepted = (
          f,
          get_elem?-set_self st.flags id f (lt_of_get_elem? st.flags id e),
          named,
          started,
          check_allowed_sound f e4,
        );
      })
