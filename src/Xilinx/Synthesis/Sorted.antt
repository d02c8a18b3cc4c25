-- ===== src/Xilinx/Synthesis/Sorted.antt =====
-- RULES/xilinx/bitstream.go and synth_out_of_context.go: the sources by their kind.
use dbt_rules.Base.{
  String, ◌≡◌, refl, sym, ap, ◌∙◌, Bool, ◌&&◌, Option, none, some, List, [], ◌∷◌, ◌++◌, append-nil,
  append_assoc, not, Bool-cases, inl, inr, if◌then◌else◌,
}
use dbt_rules.Core.Path.{FilePath}
use dbt_rules.Hdl.Files.{is_rtl, is_constraint, is_xilinx_ip_checkpoint}
use dbt_rules.Hdl.Ip.{Ip, Ips, parts_of}
use dbt_rules.Hdl.Ip.Flatten.{flatten_ip_graph}
use dbt_rules.Xilinx.Templates.{XilinxHost}
use dbt_rules.Xilinx.Synthesis.{
  Bitstream, Inputs, path_name, sort_source, sort_sources, sort_ips, inputs, with_constraints,
  bitstream_inputs,
}

abbrev pub all_of : List Ip → List FilePath
all_of [] = []
all_of (p ∷ ps) = (parts_of p).srcs ++ all_of ps

module _ {F : Type 0} (x : XilinxHost F) (sum : Ip → String) where
  -- The three kinds; a file of two kinds is of the first.
  abbrev pub rtl : FilePath → Bool
  rtl src = is_rtl (path_name x sum src)

  abbrev pub constraint : FilePath → Bool
  constraint src = not (rtl src) && is_constraint (path_name x sum src)

  abbrev pub checkpoint : FilePath → Bool
  checkpoint src =
      not (rtl src)
      && not (is_constraint (path_name x sum src))
      && is_xilinx_ip_checkpoint (path_name x sum src)

  abbrev pub those : (FilePath → Bool) → List FilePath → List FilePath
  those p [] = []
  those p (src ∷ srcs) = (if p src then src ∷ [] else []) ++ those p srcs

  abbrev pub Sorted : Inputs → Inputs → List FilePath → Type 0
  Sorted i i' srcs =
      (i'.ins ≡ i.ins ++ srcs)
      × (i'.rtls ≡ i.rtls ++ those rtl srcs)
      × (i'.constrs ≡ i.constrs ++ those constraint srcs)
      × (i'.ips ≡ i.ips ++ those checkpoint srcs)

  sort_source-Sorted : (src : FilePath) (i : Inputs) → Sorted i (sort_source x sum src i) (src ∷ [])
  unfolding sort_source
  sort_source-Sorted src i =
      let n = path_name x sum src in
      elim (Bool-cases (is_rtl n)) [
        | inl e ↦
            rw (e, sort_source) (refl, refl, sym (append-nil i.constrs), sym (append-nil i.ips))
        | inr e ↦ elim (Bool-cases (is_constraint n)) [
          | inl f ↦
              rw (e, f, sort_source) (refl, sym (append-nil i.rtls), refl, sym (append-nil i.ips))
          | inr f ↦ elim (Bool-cases (is_xilinx_ip_checkpoint n)) [
            | inl g ↦
                rw (e, f, g, sort_source)
                  (refl, sym (append-nil i.rtls), sym (append-nil i.constrs), refl)
            | inr g ↦
                rw (e, f, g, sort_source)
                  (
                    refl,
                    sym (append-nil i.rtls),
                    sym (append-nil i.constrs),
                    sym (append-nil i.ips),
                  )
          ]
        ]
      ]

  those-append :
      (p : FilePath → Bool) (xs ys : List FilePath) → those p (xs ++ ys) ≡ those p xs ++ those p ys
  those-append p [] ys = refl
  those-append p (src ∷ xs) ys =
      ap (λ l. (if p src then src ∷ [] else []) ++ l) (those-append p xs ys)
      ∙ sym (append_assoc (if p src then src ∷ [] else []) (those p xs) (those p ys))

  joined :
      (p : FilePath → Bool) (a b c xs ys : List FilePath)
      → b ≡ a ++ those p xs
      → c ≡ b ++ those p ys
      → c ≡ a ++ those p (xs ++ ys)
  joined p a b c xs ys e f =
      f
      ∙ ap (λ l. l ++ those p ys) e
      ∙ append_assoc a (those p xs) (those p ys)
      ∙ ap (λ l. a ++ l) (sym (those-append p xs ys))

  Sorted-append :
      (i j k : Inputs) (xs ys : List FilePath)
      → Sorted i j xs
      → Sorted j k ys
      → Sorted i k (xs ++ ys)
  Sorted-append i j k xs ys (a, b, c, d) (a', b', c', d') = (
    a' ∙ ap (λ l. l ++ ys) a ∙ append_assoc i.ins xs ys,
    joined rtl i.rtls j.rtls k.rtls xs ys b b',
    joined constraint i.constrs j.constrs k.constrs xs ys c c',
    joined checkpoint i.ips j.ips k.ips xs ys d d',
  )

  Sorted-none : (i : Inputs) → Sorted i i []
  Sorted-none i = (
    sym (append-nil i.ins),
    sym (append-nil i.rtls),
    sym (append-nil i.constrs),
    sym (append-nil i.ips),
  )

  sort_sources-Sorted :
      (srcs : List FilePath) (i : Inputs) → Sorted i (sort_sources x sum srcs i) srcs
  unfolding sort_sources
  sort_sources-Sorted [] i = Sorted-none i
  sort_sources-Sorted (src ∷ srcs) i =
      Sorted-append i (sort_source x sum src i) _ (src ∷ []) srcs (sort_source-Sorted src i)
        (sort_sources-Sorted srcs (sort_source x sum src i))

  sort_ips-Sorted : (ps : List Ip) (i : Inputs) → Sorted i (sort_ips x sum ps i) (all_of ps)
  unfolding sort_ips
  sort_ips-Sorted [] i = Sorted-none i
  sort_ips-Sorted (p ∷ ps) i =
      let mid = sort_sources x sum (parts_of p).srcs i in
      Sorted-append i mid _ (parts_of p).srcs (all_of ps) (sort_sources-Sorted (parts_of p).srcs i)
        (sort_ips-Sorted ps mid)

  inputs-Sorted :
      (ips : Ips)
      → Sorted
          (record { ips = []; rtls = []; constrs = []; ins = [] })
          (inputs x sum ips)
          (all_of (flatten_ip_graph sum ips))
  unfolding inputs
  inputs-Sorted ips =
      sort_ips-Sorted (flatten_ip_graph sum ips)
        (record { ips = []; rtls = []; constrs = []; ins = [] })

  abbrev pub given : Option FilePath → List FilePath
  given none = []
  given (some c) = c ∷ []

  with_constraints-given :
      (o : Option FilePath) (i : Inputs)
      → let j = with_constraints x sum o i in
        (j.ins ≡ i.ins ++ given o)
        × (j.rtls ≡ i.rtls)
        × (j.constrs ≡ i.constrs ++ given o)
        × (j.ips ≡ i.ips)
  unfolding with_constraints
  with_constraints-given none i = (sym (append-nil i.ins), refl, sym (append-nil i.constrs), refl)
  with_constraints-given (some c) i = (refl, refl, refl, refl)

  pub bitstream_inputs-Sorted :
      (rule : Bitstream)
      → let i = bitstream_inputs x sum rule in
        let srcs = all_of (flatten_ip_graph sum rule.ips) in
        (i.ins ≡ (srcs ++ rule.src ∷ []) ++ given rule.constraints)
        × (i.rtls ≡ those rtl srcs ++ rule.src ∷ [])
        × (i.constrs ≡ those constraint srcs ++ given rule.constraints)
        × (i.ips ≡ those checkpoint srcs)
  unfolding bitstream_inputs
  bitstream_inputs-Sorted rule =
      let (a, b, c, d) = inputs-Sorted rule.ips in
      let (a', b', c', d') = with_constraints-given rule.constraints _ in
      (
        a' ∙ ap (λ l. (l ++ rule.src ∷ []) ++ given rule.constraints) a,
        b' ∙ ap (λ l. l ++ rule.src ∷ []) b,
        c' ∙ ap (λ l. l ++ given rule.constraints) c,
        d' ∙ d,
      )
