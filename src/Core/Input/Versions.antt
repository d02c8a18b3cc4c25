-- ===== src/Core/Input/Versions.antt =====
-- RULES/core/util.go: `checkVersion` against the order of versions.
use dbt_rules.Base.{◌≤◌, ◌<◌, ◌≡◌, ◌↔◌, inl, inr, Bool-cases, ◌==◌, nat_eq, true, arith}
use dbt_rules.Core.Input.{Version, check_version}

-- The lexicographic order.
pub data AtMost (a b : Version) : Type 0 where
  by_major : a.major < b.major → AtMost a b
  by_minor : a.major ≡ b.major → a.minor < b.minor → AtMost a b
  by_patch : a.major ≡ b.major → a.minor ≡ b.minor → a.patch ≤ b.patch → AtMost a b

check_version-AtMost : (cur min : Version) → AtMost min cur → check_version cur min ≡ true
unfolding check_version
check_version-AtMost cur min (by_major h) = ground arith
check_version-AtMost cur min (by_minor h k) = ground arith
check_version-AtMost cur min (by_patch h k l) = ground arith

check_version_sound : (cur min : Version) → check_version cur min ≡ true → AtMost min cur
unfolding check_version
check_version_sound cur min h = elim (Bool-cases (cur.major == min.major)) [
  | inr other ↦ by_major (ground arith)
  | inl same ↦ elim (Bool-cases (cur.minor == min.minor)) [
    | inr other ↦ by_minor (ground arith) (ground arith)
    | inl same' ↦ by_patch (ground arith) (ground arith) (ground arith)
  ]
]

-- The check accepts exactly the versions that are at least the minimum, in the lexicographic order.
pub check_version_iff : (cur min : Version) → (check_version cur min ≡ true) ↔ AtMost min cur
check_version_iff cur min = (check_version_sound cur min, check_version-AtMost cur min)
