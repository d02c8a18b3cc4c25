-- ===== src/Cc/Collect/Fresh.antt =====
-- RULES/cc/cc.go: the number of the libraries that a walk over the dependencies has yet to enter.
use dbt_rules.Base.{
  ℕ, zero, suc, ◌+◌, ◌≤◌, ◌<◌, String, ◌≡◌, ◌⊎◌, Bool, true, false, not, ◌&&◌, arith, ◌==◌, nat_eq,
  string_eq, inl, inr, if◌then◌else◌, Result, ok, fail,
}
use native.Mathlib.Decide.{ℕ_discrete}
use dbt_rules.Base.Map.{Map, index, insert, index-insert}
use dbt_rules.Cc.Toolchain.{Toolchain}
use dbt_rules.Cc.Library.{Library, Env, resolve}
use dbt_rules.Cc.Collect.Order.{path_of}

module _ (env : Env) (target : String) (tc : Toolchain) where
  -- A library that no walk has entered yet.
  unfoldable pub is_fresh : Map String ℕ → String → Bool
  is_fresh visited p = not (index 0 visited p == 2) && not (index 0 visited p == 1)

  unfoldable pub weight : Map String ℕ → Result Library → ℕ
  unfolding is_fresh
  weight visited (fail e) = 0
  weight visited (ok lib) = if is_fresh visited (path_of env target tc lib) then 1 else 0

  -- The number of the rule objects below `n` whose libraries are fresh.
  unfoldable pub fresh_count : Map String ℕ → ℕ → ℕ
  unfolding weight
  fresh_count visited zero = 0
  fresh_count visited (suc n) = weight visited (resolve env target tc n) + fresh_count visited n

  pub record Shrinks (v v' : Map String ℕ) : Type 0 where
    pub at : (p : String) → is_fresh v' p ≡ true → is_fresh v p ≡ true

  pub Shrinks-refl : (v : Map String ℕ) → Shrinks v v
  Shrinks-refl v = record { at = λ p h. h }

  pub Shrinks-trans : {u v w : Map String ℕ} → Shrinks u v → Shrinks v w → Shrinks u w
  Shrinks-trans a b = record { at = λ p h. a.at p (b.at p h) }

  pub Shrinks-insert :
      (v : Map String ℕ) (path : String) (m : ℕ) → (m ≡ 1) ⊎ (m ≡ 2) → Shrinks v (insert path m v)
  unfolding is_fresh
  Shrinks-insert v path m (inl e) = record {
    at = λ p h. ground (arith, index-insert path p 0 m v, h, e);
  }
  Shrinks-insert v path m (inr e) = record {
    at = λ p h. ground (arith, index-insert path p 0 m v, h, e);
  }

  weight-le : (v v' : Map String ℕ) (r : Result Library) → Shrinks v v' → weight v' r ≤ weight v r
  unfolding weight
  weight-le v v' (fail e) s = omega arith
  weight-le v v' (ok lib) s = ground (arith, s.at (path_of env target tc lib))

  pub fresh_count-le :
      (v v' : Map String ℕ) (n : ℕ) → Shrinks v v' → fresh_count v' n ≤ fresh_count v n
  unfolding fresh_count
  fresh_count-le v v' zero s = omega arith
  fresh_count-le v v' (suc n) s =
      omega (arith, weight-le v v' (resolve env target tc n) s, fresh_count-le v v' n s)

  weight-lt :
      (v v' : Map String ℕ) (r : Result Library) (lib : Library)
      → r ≡ ok lib
      → is_fresh v (path_of env target tc lib) ≡ true
      → is_fresh v' (path_of env target tc lib) ≡ false
      → weight v' r < weight v r
  unfolding weight
  weight-lt v v' (fail e) lib h f g = absurd (ground (arith, h))
  weight-lt v v' (ok l) lib h f g = ground (arith, h, f, g)

  pub fresh_count-lt :
      (v v' : Map String ℕ) (n dep : ℕ) (lib : Library)
      → Shrinks v v'
      → dep < n
      → resolve env target tc dep ≡ ok lib
      → is_fresh v (path_of env target tc lib) ≡ true
      → is_fresh v' (path_of env target tc lib) ≡ false
      → fresh_count v' n < fresh_count v n
  unfolding fresh_count
  fresh_count-lt v v' zero dep lib s below r f g = elim below [ ]
  fresh_count-lt v v' (suc n) dep lib s below r f g = elim (ℕ_discrete n dep) [
    | yes e ↦
        omega (
          arith,
          weight-lt v v' (resolve env target tc n) lib (rw e r) f g,
          fresh_count-le v v' n s,
        )
    | no ne ↦ omega (
      arith,
      weight-le v v' (resolve env target tc n) s,
      fresh_count-lt v v' n dep lib s (omega arith) r f g,
    )
  ]
