-- ===== src/Cc/Library/Placement.antt =====
-- RULES/cc/cc.go: where CcLibrary puts a library, also when it is asked again.
use dbt_rules.Base.{
  String, ◌<>◌, ◌≡◌, refl, sym, ap, ◌∙◌, false, Option, none, some, arith, ◌==◌, string_eq,
  if◌then◌else◌, Result, ok, >>=-eq-ok, List,
}
use dbt_rules.Core.Path.{FilePath, OutPath, out_path, with_prefix}
use dbt_rules.Cc.Toolchain.{Toolchain}
use dbt_rules.Cc.Library.{
  Library, Env, or_this, effective_toolchain, require_out, includes_for_sources, place, place_for,
  filled, cc_library,
}

-- The path for a toolchain, from the library's own path and toolchain.
abbrev pub placed : Toolchain → Toolchain → Option OutPath → Option OutPath
placed tc user o =
    if tc.name == user.name
    then o
    else elim o [ none ↦ none | some out ↦ some (with_prefix (out_path out) (tc.name <> "/")) ]

or_this-placed : (tc user : Toolchain) (o : Option OutPath) → or_this o (placed tc user o) ≡ o
or_this-placed tc user (some p) = refl
or_this-placed tc user none = ground arith

ok_some_inj :
    {A : Type 0} {a b : A} → ◌≡◌ {A = Result (Option A)} (ok (some a)) (ok (some b)) → a ≡ b
ok_some_inj e = cc

module _ (env : Env) (target : String) where
  record Placed (tc : Toolchain) (lib l : Library) (user : Toolchain) : Type 0 where
    pub chosen : effective_toolchain env target lib ≡ ok (some user)
    pub user_toolchain : l.user_toolchain ≡ some user
    pub user_out : l.user_out ≡ or_this lib.user_out lib.out
    pub out : l.out ≡ placed tc user (or_this lib.user_out lib.out)

  -- What `place` does to a library that it is given with the path `o`.
  record Kept (tc user : Toolchain) (o : Option OutPath) (lib l : Library) : Type 0 where
    pub user_toolchain : l.user_toolchain ≡ lib.user_toolchain
    pub user_out : l.user_out ≡ lib.user_out
    pub out : l.out ≡ placed tc user o

  place-Kept :
      (tc user : Toolchain) (o : Option OutPath) (lib l : Library)
      → place env target tc user o lib ≡ ok l
      → Kept tc user o lib l
  unfolding place
  place-Kept tc user none lib l h = record {
    user_toolchain = ground (arith, h);
    user_out = ground (arith, h);
    out = ground (arith, h);
  }
  place-Kept tc user (some p) lib l h = record {
    user_toolchain = ground (arith, h);
    user_out = ground (arith, h);
    out = ground (arith, h);
  }

  place_for-Placed :
      (tc : Toolchain) (found : Option Toolchain) (incs : List FilePath) (lib l : Library)
      → effective_toolchain env target lib ≡ ok found
      → place_for env target tc found incs lib ≡ ok l
      → (user : Toolchain) × Placed tc lib l user
  unfolding place_for
  place_for-Placed tc none incs lib l e h = cc
  place_for-Placed tc (some user) incs lib l e h =
      let kept =
        place-Kept tc user (or_this lib.user_out lib.out) (filled env target user incs lib) l h in
      (
        user,
        record {
          chosen = e;
          user_toolchain = kept.user_toolchain;
          user_out = kept.user_out;
          out = kept.out;
        },
      )

  cc_library-Placed :
      (tc : Toolchain) (lib l : Library)
      → cc_library env target tc lib ≡ ok l
      → (user : Toolchain) × Placed tc lib l user
  unfolding cc_library
  cc_library-Placed tc lib l h =
      let (_, e1, h1) = >>=-eq-ok (require_out env target lib.out) _ h in
      let (incs, e2, h2) = >>=-eq-ok (includes_for_sources env.input lib.srcs false) _ h1 in
      let (found, e3, h3) = >>=-eq-ok (effective_toolchain env target lib) _ h2 in
      place_for-Placed tc found incs lib l e3 h3

  chosen_of :
      (lib : Library) (user : Toolchain)
      → lib.user_toolchain ≡ some user
      → effective_toolchain env target lib ≡ ok (some user)
  unfolding effective_toolchain
  chosen_of lib user e = rw e refl

  -- CcLibrary of a library that CcLibrary gave for another toolchain puts it where CcLibrary of the
  -- library itself does: the path's prefixes do not pile up, and the library's own path and toolchain
  -- stay known.
  pub cc_library_again :
      (a b : Toolchain) (lib lib_a lib_ab lib_b : Library)
      → cc_library env target a lib ≡ ok lib_a
      → cc_library env target b lib_a ≡ ok lib_ab
      → cc_library env target b lib ≡ ok lib_b
      → (lib_ab.out ≡ lib_b.out)
        × (lib_ab.user_out ≡ lib_b.user_out)
        × (lib_ab.user_toolchain ≡ lib_b.user_toolchain)
  cc_library_again a b lib lib_a lib_ab lib_b ha hab hb =
      let (u, pa) = cc_library-Placed a lib lib_a ha in
      let (v, pab) = cc_library-Placed b lib_a lib_ab hab in
      let (w, pb) = cc_library-Placed b lib lib_b hb in
      let o = or_this lib.user_out lib.out in
      let same_out : or_this lib_a.user_out lib_a.out ≡ o =
        rw (pa.user_out, pa.out) (or_this-placed a u o) in
      let v_u = (ok_some_inj (sym pab.chosen ∙ chosen_of lib_a u pa.user_toolchain)) in
      let w_u = ok_some_inj (sym pb.chosen ∙ pa.chosen) in
      let path = ap (placed b u) same_out in
      (
        pab.out
            ∙ ap (λ t. placed b t (or_this lib_a.user_out lib_a.out)) v_u
            ∙ path
            ∙ sym (pb.out ∙ ap (λ t. placed b t o) w_u),
        pab.user_out ∙ same_out ∙ sym pb.user_out,
        pab.user_toolchain ∙ ap some (v_u ∙ sym w_u) ∙ sym pb.user_toolchain,
      )
