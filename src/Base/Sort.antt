-- ===== src/Base/Sort.antt =====
-- sort.Strings and sort.Slice by a text: an insertion sort, and the order of texts.
use Prim.Native.Nat.{Ordering, compare as compare_ℕ}
use Prim.Native.Char.{Char, code}
use Prim.Native.String.compare
use Prim.Native.String.{String, compare, then as ordered}
use mathlib.Core.Path.{◌≡◌, refl, ap, ap₂, ◌∙◌}
use mathlib.Core.Bool.{Bool, true, false, ◌||◌}
use mathlib.Core.List.{List, [], ◌∷◌, Perm, Permᴰ}
use mathlib.Core.Logic.{inl, inr, ∥∥₁_elim}
use mathlib.Core.HLevel.{hedberg}
use native.Mathlib.Omega.{arith}
use text.Mathlib.Text.{◌==◌}
use text.Mathlib.TextEquality.{Char-path, eq_iff}
use dbt_rules.Base.Tests.{Bool-cases, string_eq, if◌then◌else◌}
use dbt_rules.Base.Lists.{elem}

-- An order that is not "greater".
abbrev not_gt : Ordering → Bool
not_gt Ordering.gt = false
not_gt _ = true

-- `s <= t` on strings.
unfoldable pub text_le : String → String → Bool
text_le s t = not_gt (compare s t)

le_nil : (t : String) → text_le String.[] t ≡ true
unfolding text_le
le_nil String.[] = refl
le_nil (String.◌∷◌ d t) = ap not_gt (compare.nil-cons d t)

not-le_nil : (c : Char) (s : String) → text_le (String.◌∷◌ c s) String.[] ≡ false
unfolding text_le
not-le_nil c s = ap not_gt (compare.cons-nil c s)

le_cons :
    (c d : Char) (s t : String)
    → text_le (String.◌∷◌ c s) (String.◌∷◌ d t)
      ≡ not_gt (ordered (compare_ℕ (code c) (code d)) (compare s t))
unfolding text_le
le_cons c d s t = ap not_gt (compare.cons-cons c d s t)

text_le_total : (s t : String) → text_le s t ≡ false → text_le t s ≡ true
unfolding text_le
text_le_total String.[] t h = cc (le_nil t)
text_le_total (String.◌∷◌ c s) String.[] h = le_nil (String.◌∷◌ c s)
text_le_total (String.◌∷◌ c s) (String.◌∷◌ d t) h =
    rw (le_cons d c t s) (ground (arith, text_le_total s t, le_cons c d s t))

text_le_antisymm : (s t : String) → text_le s t ≡ true → text_le t s ≡ true → s ≡ t
unfolding text_le
text_le_antisymm String.[] String.[] h k = refl
text_le_antisymm String.[] (String.◌∷◌ d t) h k = cc (not-le_nil d t)
text_le_antisymm (String.◌∷◌ c s) String.[] h k = cc (not-le_nil c s)
text_le_antisymm (String.◌∷◌ c s) (String.◌∷◌ d t) h k =
    ground (arith, text_le_antisymm s t, le_cons c d s t, le_cons d c t s, Char-path c d)

text_le_trans : (s t u : String) → text_le s t ≡ true → text_le t u ≡ true → text_le s u ≡ true
unfolding text_le
text_le_trans String.[] t u h k = le_nil u
text_le_trans (String.◌∷◌ c s) String.[] u h k = cc (not-le_nil c s)
text_le_trans (String.◌∷◌ c s) (String.◌∷◌ d t) String.[] h k = cc (not-le_nil d t)
text_le_trans (String.◌∷◌ c s) (String.◌∷◌ d t) (String.◌∷◌ e u) h k =
    ground (arith, text_le_trans s t u, le_cons c d s t, le_cons d e t u, le_cons c e s u)

-- The insertion of one value by its key.
unfoldable pub insert_on {ℓ} : {A : Type ℓ} → (A → String) → A → List A → List A
insert_on key a [] = a ∷ []
insert_on key a (b ∷ l) = if text_le (key a) (key b) then a ∷ b ∷ l else b ∷ insert_on key a l

unfoldable pub sort_on {ℓ} : {A : Type ℓ} → (A → String) → List A → List A
unfolding insert_on
sort_on key [] = []
sort_on key (a ∷ l) = insert_on key a (sort_on key l)

-- sort.Strings
unfoldable pub sort_strings : List String → List String
unfolding sort_on text_le
sort_strings = sort_on (λ s. s)

insert_comm :
    (a b : String) (l : List String)
    → insert_on (λ s. s) a (insert_on (λ s. s) b l) ≡ insert_on (λ s. s) b (insert_on (λ s. s) a l)
unfolding insert_on
insert_comm a b [] = ground (arith, text_le_total a b, text_le_antisymm a b)
insert_comm a b (c ∷ l) = ground (
  arith,
  insert_comm a b l,
  text_le_total a b,
  text_le_antisymm a b,
  text_le_trans a b c,
  text_le_trans b a c,
  text_le_total a c,
  text_le_total b c,
)

sort-permᴰ : {l m : List String} → Permᴰ l m → sort_strings l ≡ sort_strings m
unfolding sort_strings sort_on
sort-permᴰ Permᴰ.nil = refl
sort-permᴰ (Permᴰ.cons e p) = ap₂ (insert_on (λ s. s)) e (sort-permᴰ p)
sort-permᴰ (Permᴰ.swap {a = a} {b = b} {l = l} e f) = cc (insert_comm a b (sort_strings l))
sort-permᴰ (Permᴰ.trans p q) = sort-permᴰ p ∙ sort-permᴰ q

string_discrete : Discrete String
string_discrete s t = elim (Bool-cases (s == t)) [
  | inl p ↦ yes ((eq_iff s t).0 p)
  | inr p ↦ no (λ e. cc ((eq_iff s t).1 e))
]

strings_set : IsSet (List String)
strings_set = hlevel (hedberg string_discrete)

-- The order of the items does not matter to their sorted list.
pub sort_strings-perm : {l m : List String} → Perm l m → sort_strings l ≡ sort_strings m
sort_strings-perm p = ∥∥₁_elim p (strings_set _ _) sort-permᴰ

elem-insert_on :
    (k a : String) (l : List String) → elem k (insert_on (λ s. s) a l) ≡ (a == k || elem k l)
unfolding insert_on
elem-insert_on k a [] = refl
elem-insert_on k a (b ∷ l) = ground (arith, elem-insert_on k a l)

pub elem-sort_strings : (k : String) (l : List String) → elem k (sort_strings l) ≡ elem k l
unfolding sort_strings sort_on
elem-sort_strings k [] = refl
elem-sort_strings k (a ∷ l) =
    elem-insert_on k a (sort_strings l) ∙ ap (λ b. a == k || b) (elem-sort_strings k l)
