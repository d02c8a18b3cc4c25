-- ===== src/Hdl/Ip/Flatten/Order.antt =====
-- RULES/hdl/flatten_ip_graph.go: the order of the flat list.
use dbt_rules.Base.{
  String, ◌≡◌, sym, subst, ◌∙◌, Bool, true, List, [], ◌∷◌, ◌++◌, map, append-nil, append_assoc,
  arith, elem, Distinct, string_eq, beq_refl, Bool-cases, inl, inr,
}
use dbt_rules.Base.Map.{has}
use dbt_rules.Hdl.Unique.{
  Unique, none_seen, push_new, IsUnique, none_seen-IsUnique, push_new-IsUnique, has-push_new,
}
use dbt_rules.Hdl.Ip.{Ip, ip, Ips, nil, cons, ips_of}
use dbt_rules.Hdl.Ip.Flatten.{flatten_ip_graph, flatten_ip_graph_from, flatten_ip_graph_of}

abbrev pub Implies : (String → Bool) → (String → Bool) → Type 0
Implies p q = (k : String) → p k ≡ true → q k ≡ true

module _ (sum : Ip → String) where
  -- The checksum of each Ip of the list passes the test.
  abbrev pub Direct : Ips → (String → Bool) → Type 0
  Direct nil p = Unit
  Direct (cons i is) p = (p (sum i) ≡ true) × Direct is p

  -- So does that of each Ip of the graph.
  abbrev mutual
    pub Reached : Ip → (String → Bool) → Type 0
    Reached (ip parts deps) p = (p (sum (ip parts deps)) ≡ true) × ReachedAll deps p

    pub ReachedAll : Ips → (String → Bool) → Type 0
    ReachedAll nil p = Unit
    ReachedAll (cons i is) p = Reached i p × ReachedAll is p

  abbrev pub among : List String → String → Bool
  among sums k = elem k sums

  -- The checksum of each dependency of an Ip stands before the Ip.
  abbrev pub IsOrdered : List String → List Ip → Type 0
  IsOrdered before [] = Unit
  IsOrdered before (i ∷ is) = Direct (ips_of i) (among before) × IsOrdered (before ++ sum i ∷ []) is

  Direct-mono : (is : Ips) (p q : String → Bool) → Implies p q → Direct is p → Direct is q
  Direct-mono nil p q h d = tt
  Direct-mono (cons i is) p q h (here, there) = (h (sum i) here, Direct-mono is p q h there)

  mutual
    Reached-mono : (i : Ip) (p q : String → Bool) → Implies p q → Reached i p → Reached i q
    Reached-mono (ip parts deps) p q h (here, there) =
        (h (sum (ip parts deps)) here, ReachedAll-mono deps p q h there)

    ReachedAll-mono :
        (is : Ips) (p q : String → Bool) → Implies p q → ReachedAll is p → ReachedAll is q
    ReachedAll-mono nil p q h d = tt
    ReachedAll-mono (cons i is) p q h (here, there) =
        (Reached-mono i p q h here, ReachedAll-mono is p q h there)

  Reached-own : (i : Ip) (p : String → Bool) → Reached i p → p (sum i) ≡ true
  Reached-own (ip parts deps) p h = h.0

  ReachedAll-Direct : (is : Ips) (p : String → Bool) → ReachedAll is p → Direct is p
  ReachedAll-Direct nil p h = tt
  ReachedAll-Direct (cons i is) p (here, there) =
      (Reached-own i p here, ReachedAll-Direct is p there)

  IsOrdered-snoc :
      (before : List String) (l : List Ip) (i : Ip)
      → IsOrdered before l
      → Direct (ips_of i) (among (before ++ map sum l))
      → IsOrdered before (l ++ i ∷ [])
  IsOrdered-snoc before [] i h deps =
      (subst (λ s. Direct (ips_of i) (among s)) (append-nil before) deps, tt)
  IsOrdered-snoc before (j ∷ l) i (here, there) deps = (
    here,
    IsOrdered-snoc (before ++ sum j ∷ []) l i there (
        subst (λ s. Direct (ips_of i) (among s))
          (sym (append_assoc before (sum j ∷ []) (map sum l))) deps),
  )

  abbrev seen : Unique Ip → String → Bool
  seen u k = has k u.seen

  record Good (u : Unique Ip) : Type 0 where
    unique : IsUnique sum u
    ordered : IsOrdered [] u.items

  -- What a walk makes of the list.
  record Walked (u v : Unique Ip) (Done : (String → Bool) → Type 0) : Type 0 where
    good : Good v
    grows : Implies (seen u) (seen v)
    done : Done (seen v)

  same_among : (u : Unique Ip) → IsUnique sum u → Implies (seen u) (among (map sum u.items))
  same_among u h k e = sym (h.same k) ∙ e

  push_new-Good :
      (i : Ip) (u : Unique Ip) → Good u → Direct (ips_of i) (seen u) → Good (push_new (sum i) i u)
  unfolding push_new
  push_new-Good i u h deps = record {
    unique = push_new-IsUnique sum i u h.unique;
    ordered = elim (Bool-cases (has (sum i) u.seen)) [
      | inl e ↦ rw e h.ordered
      | inr e ↦ rw e (
          IsOrdered-snoc [] u.items i h.ordered (
            Direct-mono (ips_of i) (seen u) (among (map sum u.items)) (same_among u h.unique) deps))
    ];
  }

  push_new-Walked :
      (i : Ip) (u : Unique Ip)
      → Good u
      → ReachedAll (ips_of i) (seen u)
      → Walked u (push_new (sum i) i u) (Reached i)
  push_new-Walked (ip parts deps) u h all =
      let i = ip parts deps in
      let grows : Implies (seen u) (seen (push_new (sum i) i u)) =
        λ k e. ground (arith, has-push_new sum k i u, e) in
      record {
        good = push_new-Good i u h (ReachedAll-Direct deps (seen u) all);
        grows = grows;
        done = (
          ground (arith, has-push_new sum (sum i) i u, beq_refl (sum i)),
          ReachedAll-mono deps (seen u) (seen (push_new (sum i) i u)) grows all,
        );
      }

  mutual
    unfolding flatten_ip_graph_from

    from-Walked :
        (i : Ip) (u : Unique Ip) → Good u → Walked u (flatten_ip_graph_from sum i u) (Reached i)
    from-Walked (ip parts deps) u h =
        let w = of-Walked deps u h in
        let v = push_new-Walked (ip parts deps) (flatten_ip_graph_of sum deps u) w.good w.done in
        record { good = v.good; grows = λ k e. v.grows k (w.grows k e); done = v.done }

    of-Walked :
        (is : Ips) (u : Unique Ip)
        → Good u
        → Walked u (flatten_ip_graph_of sum is u) (ReachedAll is)
    of-Walked nil u h = record { good = h; grows = λ k e. e; done = tt }
    of-Walked (cons i is) u h =
        let w = from-Walked i u h in
        let v = of-Walked is (flatten_ip_graph_from sum i u) w.good in
        record {
          good = v.good;
          grows = λ k e. v.grows k (w.grows k e);
          done = (Reached-mono i _ _ v.grows w.done, v.done);
        }

  none_seen-Good : Good none_seen
  none_seen-Good = record { unique = none_seen-IsUnique sum; ordered = tt }

  -- The flat list of a graph of Ips holds no checksum twice, holds that of each Ip of the graph,
  -- and has those of an Ip's dependencies before the Ip.
  pub flatten_ip_graph-IsOrdered :
      (is : Ips)
      → Distinct (map sum (flatten_ip_graph sum is))
        × ReachedAll is (among (map sum (flatten_ip_graph sum is)))
        × IsOrdered [] (flatten_ip_graph sum is)
  unfolding flatten_ip_graph
  flatten_ip_graph-IsOrdered is =
      let w = of-Walked is none_seen none_seen-Good in
      (
        w.good.unique.distinct,
        ReachedAll-mono is _ _ (same_among (flatten_ip_graph_of sum is none_seen) w.good.unique)
            w.done,
        w.good.ordered,
      )
