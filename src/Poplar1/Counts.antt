-- ===== src/Poplar1/Counts.antt =====
-- From output shares to the counts of the prefixes: `aggregate` and `unshard` of src/vdaf/poplar1.rs.
use Prim.Native.Nat.{Ordering}
use libprio_rs.Common.{
  ℕ, zero, suc, ◌+◌, ◌^◌, ◌≤◌, ◌<◌, ◌≡◌, refl, sym, ap, ◌∙◌, List, [], ◌∷◌, ◌++◌, arith, length,
  length-map, All, map, lt→ltb, append_assoc, append-nil, replicate,
}
use mathlib.Core.Path.{subst}
use native.Mathlib.Nat.{mod-eq_of_lt}
use libprio_rs.Outcome.{ok}
use libprio_rs.Fp.Element.{Represents, zero-Represents, residue-Represents}
use libprio_rs.Field.{FieldType, plus, add_each, into_integer}
use libprio_rs.Field.Codec.{IsFieldType}
use libprio_rs.Field.Elementwise.{IsVector}
use libprio_rs.Field.Sums.{add_all, zeros-IsVector, zeros-add_each}
use libprio_rs.Prio3.Totals.{accumulate_all_lem, merge_shares_lem, p_positive}
use libprio_rs.Poplar1.{IdpfInput}
use libprio_rs.Poplar1.Collect.{insert_count, aggregate, count_of, count_loop, unshard}
use libprio_rs.Poplar1.Hits.{hit, having, word_of, IsReport}
use libprio_rs.Poplar1.Input.{cmp}
use libprio_rs.Poplar1.Ordered.{IsOrdered, cmp_flip, below_middle}
use libprio_rs.Poplar1.Sums.{IsSum, IsSum-add, add-IsSum, reduced-IsSum}

-- The entries of a map, in the order of the keys.
abbrev pub entries : (IdpfInput → ℕ) → List IdpfInput → List (IdpfInput × ℕ)
entries c [] = []
entries c (node ∷ nodes) = (node, c node) ∷ entries c nodes

-- The words at the nodes are additive shares of the counts.
abbrev AreTallies : FieldType → List IdpfInput → List ℕ → List ℕ → (IdpfInput → ℕ) → Type 0
AreTallies f [] [] [] c = Unit {0}
AreTallies f (node ∷ nodes) (x ∷ xs) (y ∷ ys) c =
    IsSum f.fp x y (c node) × AreTallies f nodes xs ys c
AreTallies f _ _ _ c = ⊥

module _ (f : FieldType) (ok_f : IsFieldType f) where
  open f use {fp}

  AreTallies-by :
      (nodes : List IdpfInput) (xs ys : List ℕ) (c c' : IdpfInput → ℕ)
      → AreTallies f nodes xs ys c
      → ((node : IdpfInput) → c node ≡ c' node)
      → AreTallies f nodes xs ys c'
  AreTallies-by [] [] [] c c' h e = tt
  AreTallies-by (node ∷ nodes) (x ∷ xs) (y ∷ ys) c c' (hs, h) e =
      (subst (IsSum fp x y) (e node) hs, AreTallies-by nodes xs ys c c' h e)
  AreTallies-by nodes xs ys c c' h e = ground arith

  add_each-AreTallies :
      (nodes : List IdpfInput) (xs ys xs' ys' : List ℕ) (c c' : IdpfInput → ℕ)
      → AreTallies f nodes xs ys c
      → AreTallies f nodes xs' ys' c'
      → AreTallies f nodes (add_each f xs xs') (add_each f ys ys') (λ node. c node + c' node)
  unfolding add_each
  add_each-AreTallies [] [] [] [] [] c c' h h' = tt
  add_each-AreTallies (node ∷ nodes) (x ∷ xs) (y ∷ ys) (x' ∷ xs') (y' ∷ ys') c c' (hs, h)
        (hs', h') =
      (
        add-IsSum fp ok_f.parameters x y (c node) x' y' (c' node) hs hs',
        add_each-AreTallies nodes xs ys xs' ys' c c' h h',
      )
  add_each-AreTallies nodes xs ys xs' ys' c c' h h' = ground arith

  word-Represents : (unit n : ℕ) → Represents fp unit 1 → n ≤ 1 → Represents fp (word_of unit n) n
  word-Represents unit zero h le = zero-Represents fp ok_f.parameters
  word-Represents unit (suc n) h le = subst (Represents fp unit) {x = 1} {y = suc n} (omega arith) h

  hit-le : (input node : IdpfInput) → hit input node ≤ 1
  hit-le input node = ground arith

  -- What a report adds.
  report-AreTallies :
      (unit : ℕ) (input : IdpfInput) (nodes : List IdpfInput) (xs ys : List ℕ)
      → Represents fp unit 1
      → IsReport f unit nodes (input, xs, ys)
      → AreTallies f nodes xs ys (hit input)
  unfolding add_each
  report-AreTallies unit input [] [] [] hu h = tt
  report-AreTallies unit input [] [] (y ∷ ys) hu h = absurd (omega (arith, h.1.0))
  report-AreTallies unit input [] (x ∷ xs) ys hu h = absurd (omega (arith, h.0.0))
  report-AreTallies unit input (node ∷ nodes) [] ys hu h = absurd (omega (arith, h.0.0))
  report-AreTallies unit input (node ∷ nodes) (x ∷ xs) [] hu h = absurd (omega (arith, h.1.0))
  report-AreTallies unit input (node ∷ nodes) (x ∷ xs) (y ∷ ys) hu ((lx, hx), (ly, hy), e) =
      let here : plus f x y ≡ word_of unit (hit input node) = cc e in
      let rest : add_each f xs ys ≡ map (λ n. word_of unit (hit input n)) nodes = cc e in
      (
        reduced-IsSum fp ok_f.parameters x y _ (hit input node) hx.0 hy.0 here
            (word-Represents unit (hit input node) hu (hit-le input node)),
        report-AreTallies unit input nodes xs ys hu
            ((omega arith, hx.1), (omega arith, hy.1), rest),
      )

  zeros-AreTallies :
      (nodes : List IdpfInput)
      → AreTallies f nodes (replicate (length nodes) 0) (replicate (length nodes) 0) (λ node. 0)
  zeros-AreTallies [] = tt
  zeros-AreTallies (node ∷ nodes) =
      let none = zero-Represents fp ok_f.parameters in
      (
        record { left = 0; right = 0; left_Represents = none; right_Represents = none; sum = refl },
        zeros-AreTallies nodes,
      )

  -- The sums over the reports.
  reports-AreTallies :
      (unit : ℕ) (nodes : List IdpfInput) (reports : List (IdpfInput × List ℕ × List ℕ))
      (xs ys : List ℕ) (c : IdpfInput → ℕ)
      → Represents fp unit 1
      → All (IsReport f unit nodes) reports
      → AreTallies f nodes xs ys c
      → AreTallies f nodes
          (add_all f xs (map (λ r. r.1) reports))
          (add_all f ys (map (λ r. r.2) reports))
          (λ node. c node + having (map (λ r. r.0) reports) node)
  reports-AreTallies unit nodes [] xs ys c hu h ha =
      AreTallies-by nodes xs ys c _ ha (λ node. omega arith)
  reports-AreTallies unit nodes (report ∷ reports) xs ys c hu (hr, h) ha =
      let one_more =
        add_each-AreTallies nodes xs ys (report.1) (report.2) c (hit report.0) ha
          (report-AreTallies unit report.0 nodes report.1 report.2 hu hr) in
      let rest = reports-AreTallies unit nodes reports _ _ _ hu h one_more in
      AreTallies-by nodes _ _ _ _ rest (λ node. omega arith)

  AreTallies-IsVector :
      (nodes : List IdpfInput) (xs ys : List ℕ) (c : IdpfInput → ℕ)
      → AreTallies f nodes xs ys c
      → IsVector f (length nodes) xs × IsVector f (length nodes) ys
  AreTallies-IsVector [] [] [] c h = ((refl, tt), (refl, tt))
  AreTallies-IsVector (node ∷ nodes) (x ∷ xs) (y ∷ ys) c (hs, h) =
      let ((lx, hx), (ly, hy)) = AreTallies-IsVector nodes xs ys c h in
      (
        (ap suc lx, (hs.left_Represents.reduced, hx)),
        (ap suc ly, (hs.right_Represents.reduced, hy)),
      )
  AreTallies-IsVector nodes xs ys c h = ground arith

  -- A count comes out of its element.
  count_of_lem : (x n : ℕ) → Represents fp x n → n < fp.p → n < 2 ^ 64 → count_of f x ≡ ok n
  unfolding count_of into_integer
  count_of_lem x n r small word =
      let e = residue-Represents fp ok_f.parameters x n r ∙ mod-eq_of_lt small in
      let wide = ok_f.p_lt_int in
      rw (e, lt→ltb n (2 ^ f.int_bits) (omega arith), lt→ltb n (2 ^ 64) word) refl

  insert_last :
      (node : IdpfInput) (n : ℕ) (front : List IdpfInput) (c : IdpfInput → ℕ)
      → All (λ y. cmp y node ≡ Ordering.lt) front
      → insert_count node n (entries c front) ≡ entries c front ++ ((node, n) ∷ [])
  unfolding insert_count
  insert_last node n [] c h = refl
  insert_last node n (y ∷ front) c (e, h) =
      rw (entries, insert_count, cmp_flip y node e)
        (ap (λ (t : List (IdpfInput × ℕ)). (y, c y) ∷ t) (insert_last node n front c h))

  entries_append :
      (front back : List IdpfInput) (c : IdpfInput → ℕ)
      → entries c (front ++ back) ≡ entries c front ++ entries c back
  entries_append [] back c = refl
  entries_append (y ∷ front) back c =
      ap (λ (t : List (IdpfInput × ℕ)). (y, c y) ∷ t) (entries_append front back c)

  -- The loop over the prefixes, of which those in front have their entries.
  count_loop_lem :
      (front nodes : List IdpfInput) (xs ys : List ℕ) (c : IdpfInput → ℕ)
      → AreTallies f nodes xs ys c
      → IsOrdered (front ++ nodes)
      → ((node : IdpfInput) → (c node < fp.p) × (c node < 2 ^ 64))
      → count_loop f nodes (add_each f xs ys) (entries c front) ≡ ok (entries c (front ++ nodes))
  unfolding count_loop add_each
  count_loop_lem front [] [] [] c h order small =
      ap (λ (t : List IdpfInput). ok (entries c t)) (sym (append-nil front))
  count_loop_lem front (node ∷ nodes) (x ∷ xs) (y ∷ ys) c (hs, h) order small =
      let (low, word) = small node in
      let counted =
        count_of_lem (plus f x y) (c node) (IsSum-add fp ok_f.parameters x y (c node) hs) low
          word in
      let moved : (front ++ (node ∷ [])) ++ nodes ≡ front ++ (node ∷ nodes) =
        append_assoc front (node ∷ []) nodes in
      rw
        (
          counted,
          insert_last node (c node) front c (below_middle front node nodes order),
          ← entries_append front (node ∷ []) c,
        )
        (count_loop_lem (front ++ (node ∷ [])) nodes xs ys c h (subst IsOrdered (sym moved) order)
            small
          ∙ ap (λ (t : List IdpfInput). ok (entries c t)) moved)
  count_loop_lem front nodes xs ys c h order small = ground arith

  having-le : (inputs : List IdpfInput) (node : IdpfInput) → having inputs node ≤ length inputs
  having-le [] node = omega arith
  having-le (input ∷ inputs) node = omega (arith, having-le inputs node, hit-le input node)

  -- The counts come out. The conditions: an element that stands for 1; prefixes in their order; for each
  -- report, an input and two output shares, reduced vectors of one element for each prefix, that add up
  -- to 1 at the prefixes of the input and to 0 elsewhere; and fewer reports than p and than 2 ^ 64. Then
  -- `aggregate` of each aggregator returns on its output shares, and `unshard` of the two aggregate
  -- shares gives for every prefix the number of the inputs that have it.
  pub unshard-having :
      (unit : ℕ) (nodes : List IdpfInput) (reports : List (IdpfInput × List ℕ × List ℕ))
      → Represents fp unit 1
      → IsOrdered nodes
      → All (IsReport f unit nodes) reports
      → length reports < fp.p
      → length reports < 2 ^ 64
      → (first second : List ℕ) × (aggregate f nodes (map (λ r. r.1) reports) ≡ ok first)
        × (aggregate f nodes (map (λ r. r.2) reports) ≡ ok second)
        × (unshard f nodes (first ∷ second ∷ [])
            ≡ ok (entries (having (map (λ r. r.0) reports)) nodes))
  unfolding aggregate unshard
  unshard-having unit nodes reports hu order h few word =
      let n = length nodes in
      let zeros : List ℕ = replicate n 0 in
      let hp = ok_f.p_lt_word in
      let hz = zeros-IsVector f hp (p_positive f ok_f n) n in
      let inputs : List IdpfInput = map (λ r. r.0) reports in
      let total =
        AreTallies-by nodes _ _ _ (having inputs)
          (reports-AreTallies unit nodes reports zeros zeros _ hu h (zeros-AreTallies nodes))
          (λ node. omega arith) in
      let (vf, vs) = AreTallies-IsVector nodes _ _ _ total in
      let first = add_all f zeros (map (λ r. r.1) reports) in
      let second = add_all f zeros (map (λ r. r.2) reports) in
      let (hf, hs) = outputs unit nodes reports h in
      let start : add_each f zeros first ≡ first =
        rw (vf.0) at (zeros-add_each f hp (p_positive f ok_f n) first (vf.1)) in
      let len : length inputs ≡ length reports = length-map reports _ in
      (
        first,
        second,
        accumulate_all_lem f ok_f n zeros _ hz hf,
        accumulate_all_lem f ok_f n zeros _ hz hs,
        rw (merge_shares_lem f ok_f n zeros (first ∷ second ∷ []) hz (vf, (vs, tt)), start)
            (count_loop_lem [] nodes first second (having inputs) total order (λ node. (
              omega (arith, having-le inputs node, len),
              omega (arith, having-le inputs node, len),
            ))),
      )
    where
      outputs :
          (unit' : ℕ) (nodes' : List IdpfInput) (rs : List (IdpfInput × List ℕ × List ℕ))
          → All (IsReport f unit' nodes') rs
          → All (IsVector f (length nodes')) (map (λ r. r.1) rs)
            × All (IsVector f (length nodes')) (map (λ r. r.2) rs)
      outputs unit' nodes' [] k = (tt, tt)
      outputs unit' nodes' (r ∷ rs) ((hx, hy, e), k) =
          let (ks, ls) = outputs unit' nodes' rs k in ((hx, ks), (hy, ls))
