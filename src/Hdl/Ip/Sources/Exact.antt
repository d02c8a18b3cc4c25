-- ===== src/Hdl/Ip/Sources/Exact.antt =====
-- RULES/hdl/hdl.go: the sources that `filterSources` collects.
use dbt_rules.Base.{
  String, ◌≡◌, refl, sym, ap, subst, ◌∙◌, List, [], ◌∷◌, ◌++◌, map, arith, elem, Distinct,
  string_eq, Bool-cases, inl, inr, if◌then◌else◌,
}
use dbt_rules.Base.Map.{lookup}
use dbt_rules.Core.Input.{GeneratorInput}
use dbt_rules.Core.Path.{FilePath}
use dbt_rules.Hdl.Unique.{
  Unique, none_seen, push_all, push_all-append, push_all-IsUnique, none_seen-IsUnique, has-push_all,
}
use dbt_rules.Hdl.Ip.{Ip, ip, Ips, nil, cons}
use dbt_rules.Hdl.Ip.Sources.{
  name, is_wanted, add_sources, filter_sources_from, filter_sources_of, filter_sources,
}

-- All sources with repetitions: those of the Ips, in order, and then the own ones.
unfoldable mutual
  pub sources_of : Ip → List FilePath
  sources_of (ip parts ips) = sources_of_all ips ++ parts.srcs

  pub sources_of_all : Ips → List FilePath
  sources_of_all nil = []
  sources_of_all (cons dep deps) = sources_of dep ++ sources_of_all deps

module _ (input : GeneratorInput) (suffix : String) where
  pub wanted : List FilePath → List FilePath
  wanted [] = []
  wanted (src ∷ srcs) =
      let rest = wanted srcs in if is_wanted input suffix src then src ∷ rest else rest

  wanted-append : (xs ys : List FilePath) → wanted (xs ++ ys) ≡ wanted xs ++ wanted ys
  unfolding wanted
  wanted-append [] ys = refl
  wanted-append (a ∷ xs) ys = ground (arith, wanted-append xs ys)

  add_sources-push_all :
      (srcs : List FilePath) (u : Unique FilePath)
      → add_sources input suffix srcs u ≡ push_all (name input) (wanted srcs) u
  unfolding add_sources push_all wanted
  add_sources-push_all [] u = refl
  add_sources-push_all (src ∷ srcs) u = elim (Bool-cases (is_wanted input suffix src)) [
    | inl e ↦ simp (e, add_sources, wanted, push_all, add_sources-push_all srcs)
    | inr e ↦ simp (e, add_sources, wanted, add_sources-push_all srcs)
  ]

  of_nil : (u : Unique FilePath) → u ≡ push_all (name input) (wanted (sources_of_all nil)) u
  unfolding push_all wanted sources_of_all
  of_nil u = refl

  mutual
    unfolding filter_sources_from sources_of

    from-push_all :
        (i : Ip) (u : Unique FilePath)
        → filter_sources_from input suffix i u ≡ push_all (name input) (wanted (sources_of i)) u
    from-push_all (ip parts ips) u =
        add_sources-push_all parts.srcs _
        ∙ ap (push_all (name input) (wanted parts.srcs)) (of-push_all ips u)
        ∙ sym (
            ap (λ l. push_all (name input) l u) (wanted-append (sources_of_all ips) parts.srcs)
            ∙ push_all-append (name input) (wanted (sources_of_all ips)) (wanted parts.srcs) u)

    of-push_all :
        (is : Ips) (u : Unique FilePath)
        → filter_sources_of input suffix is u ≡ push_all (name input) (wanted (sources_of_all is)) u
    of-push_all nil u = of_nil u
    of-push_all (cons dep deps) u =
        of-push_all deps _
        ∙ ap (push_all (name input) (wanted (sources_of_all deps))) (from-push_all dep u)
        ∙ sym (
            ap (λ l. push_all (name input) l u)
              (wanted-append (sources_of dep) (sources_of_all deps))
            ∙ push_all-append (name input) (wanted (sources_of dep)) (wanted (sources_of_all deps))
                u)

  -- The sources of an Ip are the first of each name among all of the wanted sources, those of the
  -- Ips that it depends on before its own. No name stands twice, and no wanted name is missing.
  pub filter_sources_exact :
      (i : Ip)
      → (filter_sources input i suffix
          ≡ (push_all (name input) (wanted (sources_of i)) none_seen).items)
        × Distinct (map (name input) (filter_sources input i suffix))
        × ((k : String)
            → elem k (map (name input) (filter_sources input i suffix))
              ≡ elem k (map (name input) (wanted (sources_of i))))
  unfolding filter_sources lookup
  filter_sources_exact i =
      let e = ap (λ (r : Unique FilePath). r.items) (from-push_all i none_seen) in
      let u =
        push_all-IsUnique (name input) (wanted (sources_of i)) none_seen
          (none_seen-IsUnique (name input)) in
      (
        e,
        subst (λ l. Distinct (map (name input) l)) (sym e) u.distinct,
        λ k.
            ap (λ l. elem k (map (name input) l)) e
            ∙ sym (u.same k)
            ∙ has-push_all (name input) k (wanted (sources_of i)) none_seen,
      )
