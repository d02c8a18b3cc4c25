-- ===== src/Hdl/Unique.antt =====
-- The loop of RULES/hdl that keeps the first item of each name: a map of the names that it has seen,
-- and the slice that it appends to.
use dbt_rules.Base.{
  String, ◌≡◌, refl, sym, ◌∙◌, Bool, true, false, ◌||◌, List, [], ◌∷◌, ◌++◌, map, arith, elem,
  Distinct, ◌==◌, string_eq, Bool-cases, inl, inr, if◌then◌else◌,
}
use dbt_rules.Base.Map.{Map, has, insert, lookup, has-insert}

pub record Unique (A : Type 0) : Type 0 where
  pub seen : Map String Bool
  pub items : List A

abbrev pub none_seen : {A : Type 0} → Unique A
none_seen = record { seen = []; items = [] }

-- if _, ok := seen[name]; !ok { seen[name] = true; items = append(items, item) }
unfoldable pub push_new : {A : Type 0} → String → A → Unique A → Unique A
push_new name item u =
    if has name u.seen
    then u
    else record { seen = insert name true u.seen; items = u.items ++ item ∷ [] }

unfoldable pub push_all : {A : Type 0} → (A → String) → List A → Unique A → Unique A
unfolding push_new
push_all name [] u = u
push_all name (a ∷ xs) u = push_all name xs (push_new (name a) a u)

module _ {A : Type 0} (name : A → String) where
  pub push_all-append :
      (xs ys : List A) (u : Unique A)
      → push_all name (xs ++ ys) u ≡ push_all name ys (push_all name xs u)
  unfolding push_all
  push_all-append [] ys u = refl
  push_all-append (a ∷ xs) ys u = push_all-append xs ys (push_new (name a) a u)

  -- The names that are seen are those of the items, and no item's name stands twice.
  pub record IsUnique (u : Unique A) : Type 0 where
    pub same : (k : String) → has k u.seen ≡ elem k (map name u.items)
    pub distinct : Distinct (map name u.items)

  elem-snoc :
      (k : String) (xs : List A) (a : A)
      → elem k (map name (xs ++ a ∷ [])) ≡ (elem k (map name xs) || name a == k)
  elem-snoc k [] a = ground arith
  elem-snoc k (b ∷ xs) a = ground (arith, elem-snoc k xs a)

  Distinct-snoc :
      (xs : List A) (a : A)
      → Distinct (map name xs)
      → elem (name a) (map name xs) ≡ false
      → Distinct (map name (xs ++ a ∷ []))
  Distinct-snoc [] a d h = (refl, tt)
  Distinct-snoc (b ∷ xs) a (new, d) h = (
    ground (
      arith,
      elem-snoc (name b) xs a,
      new,
      h,
      string_eq.beq_iff (name a) (name b),
      string_eq.beq_iff (name b) (name a),
    ),
    Distinct-snoc xs a d (ground (arith, h)),
  )

  pub none_seen-IsUnique : IsUnique none_seen
  unfolding lookup
  none_seen-IsUnique = record { same = λ k. refl; distinct = tt }

  pub push_new-IsUnique : (a : A) (u : Unique A) → IsUnique u → IsUnique (push_new (name a) a u)
  unfolding push_new
  push_new-IsUnique a u h = elim (Bool-cases (has (name a) u.seen)) [
    | inl e ↦ rw e h
    | inr e ↦ rw e (record {
      same =
          λ k. ground (arith, has-insert (name a) k true u.seen, elem-snoc k u.items a, h.same k);
      distinct = Distinct-snoc u.items a h.distinct (sym (h.same (name a)) ∙ e);
    })
  ]

  pub push_all-IsUnique : (xs : List A) (u : Unique A) → IsUnique u → IsUnique (push_all name xs u)
  unfolding push_all
  push_all-IsUnique [] u h = h
  push_all-IsUnique (a ∷ xs) u h = push_all-IsUnique xs _ (push_new-IsUnique a u h)

  -- The names that are seen behind the loop.
  pub has-push_new :
      (k : String) (a : A) (u : Unique A)
      → has k (push_new (name a) a u).seen ≡ (has k u.seen || name a == k)
  unfolding push_new
  has-push_new k a u =
      ground (arith, has-insert (name a) k true u.seen, string_eq.beq_iff (name a) k)

  pub has-push_all :
      (k : String) (xs : List A) (u : Unique A)
      → has k (push_all name xs u).seen ≡ (has k u.seen || elem k (map name xs))
  unfolding push_all
  has-push_all k [] u = ground arith
  has-push_all k (a ∷ xs) u =
      ground (arith, has-push_all k xs (push_new (name a) a u), has-push_new k a u)
