-- ===== src/Cc/Build/Link.antt =====
-- RULES/cc/cc.go: how the link of a binary splits its libraries.
use mathlib.Core.List.{Perm, perm_middle}
use mathlib.Core.List.Perm as Perms
use dbt_rules.Base.{◌≡◌, refl, Bool, true, false, List, [], ◌∷◌, ◌++◌, Bool-cases, inl, inr}
use dbt_rules.Cc.Library.{Library}
use dbt_rules.Cc.Build.Binaries.{linked}

linked_perm : (libs : List Library) → Perm (linked true libs ++ linked false libs) libs
unfolding linked
linked_perm [] = Perms.nil
linked_perm (lib ∷ libs) = elim (Bool-cases lib.always_link) [
  | inl e ↦ simp (e, linked) (Perms.cons lib (linked_perm libs))
  | inr e ↦
      simp (e, linked)
        (Perms.trans (perm_middle (linked true libs) (linked false libs))
          (Perms.cons lib (linked_perm libs)))
]

-- Each library of the list is one that is always linked in whole (or none of them is).
abbrev pub AllAlways : Bool → List Library → Type 0
AllAlways b [] = Unit
AllAlways b (lib ∷ libs) = (lib.always_link ≡ b) × AllAlways b libs

linked-true : (libs : List Library) → AllAlways true (linked true libs)
unfolding linked
linked-true [] = tt
linked-true (lib ∷ libs) = elim (Bool-cases lib.always_link) [
  | inl e ↦ simp (e, linked) (refl, linked-true libs)
  | inr e ↦ simp (e, linked) (linked-true libs)
]

linked-false : (libs : List Library) → AllAlways false (linked false libs)
unfolding linked
linked-false [] = tt
linked-false (lib ∷ libs) = elim (Bool-cases lib.always_link) [
  | inl e ↦ simp (e, linked) (linked-false libs)
  | inr e ↦ simp (e, linked) (refl, linked-false libs)
]

-- The libraries of a link are split in two: each of the first part has the mark AlwaysLink, and none
-- of the second part has it. Together they are the libraries that the link is given, each as often
-- as it is given.
pub linked_split :
    (libs : List Library)
    → Perm (linked true libs ++ linked false libs) libs
      × AllAlways true (linked true libs)
      × AllAlways false (linked false libs)
linked_split libs = (linked_perm libs, linked-true libs, linked-false libs)
