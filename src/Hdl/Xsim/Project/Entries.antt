-- ===== src/Hdl/Xsim/Project/Entries.antt =====
-- RULES/hdl/xsim.go: the entries and the dependencies of the project file.
use dbt_rules.Base.{
  String, ◌<>◌, ◌≡◌, refl, sym, subst, ap, ◌∙◌, true, false, ◌||◌, List, [], ◌∷◌, ◌++◌, arith, elem,
  elem-append, Distinct, map, map-append, ◌==◌, string_eq, eq_of_beq, Bool-cases, inl, inr,
}
use dbt_rules.Base.Map.{index, insert, lookup, index-insert}
use dbt_rules.Base.Text.Paths.{dir}
use dbt_rules.Core.Path.{FilePath, absolute, source_path}
use dbt_rules.Hdl.Files.{is_rtl, is_header}
use dbt_rules.Hdl.Ip.{Ip, ip, Ips, nil, cons}
use dbt_rules.Hdl.Ip.Sources.Exact.{sources_of, sources_of_all}
use dbt_rules.Base.Text.{to_lower}
use dbt_rules.Hdl.Simulation.{Simulation, Host, lib}
use dbt_rules.Hdl.Xsim.Project.{
  PrjFile, prefix, entry, add_src, add_srcs, add_ip, add_ips, add_to_prj_file, prj_file,
}
use dbt_rules.Hdl.Files.{sorted_string_keys}
use dbt_rules.Hdl.Vivado.Export.{define_list}
use dbt_rules.Hdl.Xsim.Project.Names.{
  is_compiled, compiled, other_key, elem-compiled, Distinct-snoc, names, Apart, compiled_deps,
  compiled-snoc, names-snoc,
}

module _ (rule : Simulation) where
  -- A line of the project file, for a path and what stands behind it.
  abbrev pub line : String × String → String
  line (path, tail) = prefix path <> " " <> to_lower (lib rule) <> " " <> path <> tail

  -- The entries are lines for the paths, one for each and in their order.
  abbrev pub Entered : List String → List String → Type 0
  Entered entries paths =
      (pairs : List (String × String)) × (entries ≡ map line pairs) × (map (λ p. p.0) pairs ≡ paths)

  Entered-eq :
      {entries entries' paths : List String}
      → entries' ≡ entries
      → Entered entries paths
      → Entered entries' paths
  Entered-eq e (pairs, f, g) = (pairs, e ∙ f, g)

  Entered-snoc :
      (entries paths : List String) (path tail : String)
      → Entered entries paths
      → Entered (entries ++ line (path, tail) ∷ []) (paths ++ path ∷ [])
  Entered-snoc entries paths path tail (pairs, e, f) = (
    pairs ++ (path, tail) ∷ [],
    ap (λ l. l ++ line (path, tail) ∷ []) e ∙ sym (map-append line pairs ((path, tail) ∷ [])),
    map-append (λ p. p.0) pairs ((path, tail) ∷ []) ∙ ap (λ l. l ++ path ∷ []) f,
  )

module _ (host : Host) (rule : Simulation) (macros : List String) where
  record Good (prj : PrjFile) : Type 0 where
    known :
        (k : String)
        → is_compiled k ≡ true
        → index false prj.rules k ≡ elem k (compiled_deps host prj.deps)
    once : Distinct (compiled_deps host prj.deps)
    entered : Entered rule prj.entries (compiled_deps host prj.deps)

  -- A dependency that gets no entry.
  plain-Good :
      (src : FilePath) (prj prj' : PrjFile)
      → is_compiled (absolute host.input src) ≡ false
      → prj'.deps ≡ prj.deps ++ src ∷ []
      → prj'.entries ≡ prj.entries
      → ((k : String) → is_compiled k ≡ true → index false prj'.rules k ≡ index false prj.rules k)
      → Good prj
      → Good prj'
  plain-Good src prj prj' c d e r h =
      let same : compiled_deps host prj'.deps ≡ compiled_deps host prj.deps =
        ap (compiled_deps host) d ∙ compiled-snoc host prj.deps src ∙ rw c refl in
      record {
        known = λ k ck. r k ck ∙ h.known k ck ∙ sym (ap (elem k) same);
        once = subst Distinct (sym same) h.once;
        entered = subst (Entered rule prj'.entries) (sym same) (Entered-eq rule e h.entered);
      }

  -- A new file with its entry.
  entered-Good :
      (src : FilePath) (prj prj' : PrjFile) (tail : String)
      → is_compiled (absolute host.input src) ≡ true
      → index false prj.rules (absolute host.input src) ≡ false
      → prj'.deps ≡ prj.deps ++ src ∷ []
      → prj'.entries ≡ prj.entries ++ line rule (absolute host.input src, tail) ∷ []
      → prj'.rules ≡ insert (absolute host.input src) true prj.rules
      → Good prj
      → Good prj'
  entered-Good src prj prj' tail c new d e r h =
      let path = absolute host.input src in
      let old = compiled_deps host prj.deps in
      let same : compiled_deps host prj'.deps ≡ old ++ path ∷ [] =
        ap (compiled_deps host) d ∙ compiled-snoc host prj.deps src ∙ rw c refl in
      record {
        known = λ k ck.
            ap (λ m. index false m k) r
            ∙ ground (
              arith,
              index-insert path k false true prj.rules,
              h.known k ck,
              elem-append k old (path ∷ []),
            )
            ∙ sym (ap (elem k) same);
        once =
            subst Distinct (sym same) (Distinct-snoc old path h.once (sym (h.known path c) ∙ new));
        entered =
            subst (Entered rule prj'.entries) (sym same)
              (Entered-eq rule e (Entered-snoc rule prj.entries old path tail h.entered));
      }

  add_src-Good :
      (src : FilePath) (prj : PrjFile)
      → Apart host (src ∷ [])
      → Good prj
      → Good (add_src host rule macros src prj)
  unfolding add_src entry
  add_src-Good src prj (apart, _) h =
      let path = absolute host.input src in
      elim (Bool-cases (is_header path)) [
        | inl e ↦ elim (Bool-cases (index false prj.rules (dir path))) [
          | inl f ↦ rw e (rw f (plain-Good src prj _ (rw e refl) refl refl (λ k c. refl) h))
          | inr f ↦ rw e (
              rw f (
                plain-Good src prj _ (rw e refl) refl refl
                  (λ k c. other_key (dir path) k prj.rules (apart e) c) h))
        ]
        | inr e ↦ elim (Bool-cases (is_rtl path)) [
          | inl f ↦ elim (Bool-cases (index false prj.rules path)) [
            | inl g ↦ rw e (rw f (rw g h))
            | inr g ↦
                rw e (rw f (rw g (entered-Good src prj _ _ (rw e (rw f refl)) g refl refl refl h)))
          ]
          | inr f ↦ rw e (rw f (plain-Good src prj _ (rw e (rw f refl)) refl refl (λ k c. refl) h))
        ]
      ]

  add_srcs-Good :
      (srcs : List FilePath) (prj : PrjFile)
      → Apart host srcs
      → Good prj
      → Good (add_srcs host rule macros srcs prj)
  unfolding add_srcs
  add_srcs-Good [] prj a h = h
  add_srcs-Good (src ∷ srcs) prj (here, there) h =
      add_srcs-Good srcs (add_src host rule macros src prj) there
        (add_src-Good src prj (here, tt) h)

  there_already :
      (k path : String) (prj : PrjFile)
      → Good prj
      → is_compiled path ≡ true
      → index false prj.rules path ≡ true
      → elem k (names host prj.deps) ≡ (elem k (names host prj.deps) || path == k)
  there_already k path prj h c g =
      let old = elem-compiled path (names host prj.deps) (sym (h.known path c) ∙ g) in
      elim (Bool-cases (path == k)) [
        | inl e ↦
            let there : elem k (names host prj.deps) ≡ true =
              ap (λ p. elem p (names host prj.deps)) (sym (eq_of_beq path k e)) ∙ old in
            rw there refl
        | inr e ↦ rw e (ground arith)
      ]

  add_src-deps :
      (k : String) (src : FilePath) (prj : PrjFile)
      → Good prj
      → elem k (names host (add_src host rule macros src prj).deps)
        ≡ (elem k (names host prj.deps) || absolute host.input src == k)
  unfolding add_src entry
  add_src-deps k src prj h =
      let path = absolute host.input src in
      elim (Bool-cases (is_header path)) [
        | inl e ↦ elim (Bool-cases (index false prj.rules (dir path))) [
          | inl f ↦ rw e (rw f (names-snoc host k prj.deps src))
          | inr f ↦ rw e (rw f (names-snoc host k prj.deps src))
        ]
        | inr e ↦ elim (Bool-cases (is_rtl path)) [
          | inl f ↦ elim (Bool-cases (index false prj.rules path)) [
            | inl g ↦ rw e (rw f (rw g (there_already k path prj h (rw e (rw f refl)) g)))
            | inr g ↦ rw e (rw f (rw g (names-snoc host k prj.deps src)))
          ]
          | inr f ↦ rw e (rw f (names-snoc host k prj.deps src))
        ]
      ]

  add_srcs-deps :
      (k : String) (srcs : List FilePath) (prj : PrjFile)
      → Apart host srcs
      → Good prj
      → elem k (names host (add_srcs host rule macros srcs prj).deps)
        ≡ (elem k (names host prj.deps) || elem k (names host srcs))
  unfolding add_srcs
  add_srcs-deps k [] prj a h = ground arith
  add_srcs-deps k (src ∷ srcs) prj (here, there) h = ground (
    arith,
    add_srcs-deps k srcs (add_src host rule macros src prj) there
        (add_src-Good src prj (here, tt) h),
    add_src-deps k src prj h,
  )

  add_srcs-append :
      (xs ys : List FilePath) (prj : PrjFile)
      → add_srcs host rule macros (xs ++ ys) prj
        ≡ add_srcs host rule macros ys (add_srcs host rule macros xs prj)
  unfolding add_srcs
  add_srcs-append [] ys prj = refl
  add_srcs-append (x ∷ xs) ys prj = add_srcs-append xs ys (add_src host rule macros x prj)

  add_nil : (prj : PrjFile) → prj ≡ add_srcs host rule macros (sources_of_all nil) prj
  unfolding add_srcs sources_of
  add_nil prj = refl

  mutual
    unfolding add_ip sources_of

    add_ip-srcs :
        (i : Ip) (prj : PrjFile)
        → add_ip host rule macros i prj ≡ add_srcs host rule macros (sources_of i) prj
    add_ip-srcs (ip parts ips) prj =
        ap (add_srcs host rule macros parts.srcs) (add_ips-srcs ips prj)
        ∙ sym (add_srcs-append (sources_of_all ips) parts.srcs prj)

    add_ips-srcs :
        (is : Ips) (prj : PrjFile)
        → add_ips host rule macros is prj ≡ add_srcs host rule macros (sources_of_all is) prj
    add_ips-srcs nil prj = add_nil prj
    add_ips-srcs (cons i is) prj =
        ap (add_ips host rule macros is) (add_ip-srcs i prj)
        ∙ add_ips-srcs is _
        ∙ sym (add_srcs-append (sources_of i) (sources_of_all is) prj)

-- All sources of a simulation with repetitions: those of its Ips, and then its own.
abbrev pub all_srcs : Simulation → List FilePath
all_srcs rule = sources_of_all rule.ips ++ rule.srcs

module _ (host : Host) (rule : Simulation) where
  abbrev own_macros : List String
  own_macros = define_list rule.defines (sorted_string_keys rule.defines)

  abbrev start : PrjFile
  start = record {
    incs = absolute host.input (source_path "") ∷ [];
    deps = [];
    entries = [];
    rules = [];
  }

  start-Good : Good host rule own_macros start
  unfolding lookup
  start-Good = record { known = λ k c. refl; once = tt; entered = ([], refl, refl) }

  prj_file-srcs : prj_file host rule ≡ add_srcs host rule own_macros (all_srcs rule) start
  unfolding prj_file add_to_prj_file
  prj_file-srcs =
      ap (add_srcs host rule own_macros rule.srcs)
        (add_ips-srcs host rule own_macros rule.ips start)
      ∙ sym (add_srcs-append host rule own_macros (sources_of_all rule.ips) rule.srcs start)

  -- The dependencies of the project file are the sources of the simulation and of its Ips, and no
  -- others. A file in Verilog or VHDL is among them once, and the entries are one line for each such
  -- file, in the order of the dependencies: its language, the library in small letters and its path,
  -- and some text behind it. No directory that holds a header may have the path of such a file.
  pub prj_file_entries :
      Apart host (all_srcs rule)
      → ((k : String)
          → elem k (names host (prj_file host rule).deps) ≡ elem k (names host (all_srcs rule)))
        × Distinct (compiled (names host (prj_file host rule).deps))
        × Entered rule
            (prj_file host rule).entries
            (compiled (names host (prj_file host rule).deps))
  prj_file_entries h =
      let good =
        subst (Good host rule own_macros) (sym prj_file-srcs)
          (add_srcs-Good host rule own_macros (all_srcs rule) start h start-Good) in
      (
        λ k.
            ap (λ prj. elem k (names host prj.deps)) prj_file-srcs
            ∙ add_srcs-deps host rule own_macros k (all_srcs rule) start h start-Good,
        good.once,
        good.entered,
      )
