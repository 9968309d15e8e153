-- ===== src/DistributedTree/Depth.antt =====
-- How many levels the tree has: its construction ends, whatever the distribution asks for.
use dparallel_recursion.Common.{
  ℕ, zero, suc, ◌+◌, ◌≤◌, ◌<◌, ◌≡◌, refl, ap, length-append, Bool, true, false, Option, some,
  >>=-eq-some, ◌==◌, ==_iff, if◌then◌else◌, List, [], ◌∷◌, ◌++◌, map, length, segment, Bool-cases,
  inl, inr, arith,
}
use dparallel_recursion.ArrayRecursion.{
  ArrayInfo, ArrayBody, results_from, array_node, array_serial,
}
use dparallel_recursion.DistributedTree.{
  Tree, pre_parallel, decompose, next_part, next_parts, create_levels, create_tree, next_level_size,
}
use dparallel_recursion.DistributedTree.Repeatable.{IsRepeatable}

-- One round that stops, or goes on and gives a result.
round-some {ℓ} :
    {A : Type ℓ} (stop all_base : Bool) (a b : A) (deeper : Option A)
    → (all_base ≡ false → (c : A) × (deeper ≡ some c))
    → (c : A) × ((if stop then some a else (if all_base then some b else deeper)) ≡ some c)
round-some true all_base a b deeper more = (a, refl)
round-some false true a b deeper more = (b, refl)
round-some false false a b deeper more = more refl

-- A problem that is no base case has children.
pub record HasChildren {ℓ κ} {T : Type ℓ} {R : Type κ} (info : ArrayInfo T) (body : ArrayBody T R)
    : Type ℓ where
  pub some_child :
      (d : T)
      → info.is_base (body.pre d) ≡ false
      → 0 < (info.num_children (body.pre_rec (body.pre d))).1

length-segment {ℓ} : {A : Type ℓ} (f : ℕ → A) (i n : ℕ) → length (segment f i n) ≡ n
unfolding segment
length-segment f i zero = refl
length-segment f i (suc n) = ap suc (length-segment f (i + 1) n)

module _ {ℓ κ} {T : Type ℓ} {R : Type κ} (info : ArrayInfo T) (body : ArrayBody T R) where
  -- The subproblems of a problem after its hooks.
  subproblem : T → ℕ → T
  subproblem d i = info.child i (info.num_children (body.pre_rec (body.pre d))).0

  node-results :
      (f : ℕ) (d : T) (r : R)
      → info.is_base (body.pre d) ≡ false
      → array_serial info body (suc f) d ≡ some r
      → (kids : List R) × (results_from
            (array_serial info body f)
            (subproblem d)
            (info.num_children (body.pre_rec (body.pre d))).1
            0
          ≡ some kids)
  unfolding array_serial array_node subproblem
  node-results f d r node e =
      let (kids, all, value) =
        >>=-eq-some (results_from (array_serial info body f) _ _ 0) _ (rw node at e) in
      (kids, all)

  -- Each problem of a level stays whole, or the recursion on it has at most `k` levels.
  data AllSettle (k : ℕ) : List T → Type (ℓ ⊔ κ) where
    all_settle : AllSettle k []
    stays :
        (d : T) (ds : List T)
        → ((pre_parallel info body d).1 == 1) ≡ true
        → AllSettle k ds
        → AllSettle k (d ∷ ds)
    divides :
        (d : T) (ds : List T) (r : R)
        → array_serial info body k d ≡ some r
        → AllSettle k ds
        → AllSettle k (d ∷ ds)

  AllSettle-append :
      (k : ℕ) (ds es : List T) → AllSettle k ds → AllSettle k es → AllSettle k (ds ++ es)
  AllSettle-append k _ es all_settle rest = rest
  AllSettle-append k _ es (stays d ds one more) rest =
      stays d (ds ++ es) one (AllSettle-append k ds es more rest)
  AllSettle-append k _ es (divides d ds r e more) rest =
      divides d (ds ++ es) r e (AllSettle-append k ds es more rest)

  segment-AllSettle :
      (k : ℕ) (child : ℕ → T) (n i : ℕ) (rs : List R)
      → results_from (array_serial info body k) child n i ≡ some rs
      → AllSettle k (segment child i n)
  unfolding results_from segment
  segment-AllSettle k child zero i rs e = all_settle
  segment-AllSettle k child (suc n) i rs e =
      let (r, first, rest) = >>=-eq-some (array_serial info body k (child i)) _ e in
      let (qs, all, last) =
        >>=-eq-some (results_from (array_serial info body k) child n (i + 1)) _ rest in
      divides (child i) _ r first (segment-AllSettle k child n (i + 1) qs all)

  -- With no level left, every problem stays whole.
  next_level_size-settled :
      (ds : List T) → AllSettle 0 ds → next_level_size (map (pre_parallel info body) ds) ≡ length ds
  unfolding next_level_size array_serial
  next_level_size-settled _ all_settle = refl
  next_level_size-settled _ (stays d ds one more) =
      let e = next_level_size-settled ds more in
      let e' = (==_iff (pre_parallel info body d).1 1).0 one in omega (arith, e, e')
  next_level_size-settled _ (divides d ds r e more) = cc

  module _ (law : IsRepeatable info body) where
    open law use {num_children_same, pre_again, pre_after_rec, pre_rec_again, is_base_same}

    pre_parallel-again :
        (d : T)
        → (pre_parallel info body (pre_parallel info body d).0).1 ≡ (pre_parallel info body d).1
    unfolding pre_parallel
    pre_parallel-again d = elim (Bool-cases (info.is_base (body.pre d))) [
      | inl base ↦ rw (base, pre_again d, base) refl
      | inr node ↦
          let same = num_children_same (body.pre_rec (body.pre d)) in
          rw
            (
              node,
              same,
              pre_after_rec d,
              pre_rec_again (body.pre d),
              is_base_same (body.pre d),
              node,
            )
            refl
    ]

    divided-AllSettle :
        (k : ℕ) (d : T) (r : R)
        → ((pre_parallel info body d).1 == 1) ≡ false
        → array_serial info body (suc k) d ≡ some r
        → AllSettle k (next_part info (pre_parallel info body d))
    unfolding pre_parallel next_part decompose subproblem
    divided-AllSettle k d r many e = elim (Bool-cases (info.is_base (body.pre d))) [
      | inl base ↦ let clash : true ≡ false = rw base at many in cc
      | inr node ↦
          let same = num_children_same (body.pre_rec (body.pre d)) in
          let many' : ((info.num_children (body.pre_rec (body.pre d))).1 == 1) ≡ false =
            rw node at many in
          let (kids, all) = node-results k d r node e in
          rw (node, many', same) (segment-AllSettle k _ _ 0 kids all)
    ]

    next_parts-AllSettle :
        (k : ℕ) (ds : List T)
        → AllSettle (suc k) ds
        → AllSettle k (next_parts info (map (pre_parallel info body) ds))
    unfolding next_parts
    next_parts-AllSettle k _ all_settle = all_settle
    next_parts-AllSettle k _ (stays d ds one more) =
        AllSettle-append k _ _
          (unfold next_part in rw one (stays _ [] (rw (pre_parallel-again d) one) all_settle))
          (next_parts-AllSettle k ds more)
    next_parts-AllSettle k _ (divides d ds r e more) =
        elim (Bool-cases ((pre_parallel info body d).1 == 1)) [
          | inl one ↦
              AllSettle-append k _ _
                (unfold next_part in rw one (stays _ [] (rw (pre_parallel-again d) one) all_settle))
                (next_parts-AllSettle k ds more)
          | inr many ↦
              AllSettle-append k _ _ (divided-AllSettle k d r many e)
                (next_parts-AllSettle k ds more)
        ]

    next_part-pos :
        HasChildren info body → (d : T) → 0 < length (next_part info (pre_parallel info body d))
    unfolding next_part pre_parallel decompose
    next_part-pos has d = elim (Bool-cases ((pre_parallel info body d).1 == 1)) [
      | inl one ↦ rw (one, pre_parallel) (omega arith)
      | inr many ↦ elim (Bool-cases (info.is_base (body.pre d))) [
        | inl base ↦ let clash : true ≡ false = rw base at many in cc
        | inr node ↦
            let same = num_children_same (body.pre_rec (body.pre d)) in
            let many' : ((info.num_children (body.pre_rec (body.pre d))).1 == 1) ≡ false =
              rw node at many in
            let size =
              length-segment (λ i. info.child i (info.num_children (body.pre_rec (body.pre d))).0) 0
                (info.num_children (body.pre_rec (body.pre d))).1 in
            rw (node, many', same) (omega (arith, size, has.some_child d node))
      ]
    ]

    next_parts-pos :
        HasChildren info body
        → (ds : List T) → 0 < length ds
        → 0 < length (next_parts info (map (pre_parallel info body) ds))
    unfolding next_parts
    next_parts-pos has [] lt = absurd (omega arith)
    next_parts-pos has (d ∷ ds) lt =
        let rest = next_parts info (map (pre_parallel info body) ds) in
        omega (
          arith,
          next_part-pos has d,
          length-append (next_part info (pre_parallel info body d)) rest,
        )

    module _ {κ'} {D : Type κ'} (redistribute : D → List T → D × Bool)
        (has : HasChildren info body) where
      create_levels-some :
          (k fuel : ℕ) (s : D) (above : List (List (Option T))) (ds : List T)
          → k < fuel
          → 0 < length ds
          → AllSettle k ds
          → (p : D × List (List (Option T)) × List T) × (create_levels info body redistribute fuel s
                above ds
              ≡ some p)
      unfolding create_levels
      create_levels-some k zero s above ds lt pos all = absurd (omega arith)
      create_levels-some k (suc fuel) s above [] lt pos all = absurd (omega arith)
      create_levels-some zero (suc fuel) s above (x ∷ xs) lt pos all =
          let ds = x ∷ xs in
          round-some (redistribute s ds).1
            (next_level_size (map (pre_parallel info body) ds) == length ds) _ _ _
            (λ more.
              let clash =
                (==_iff (next_level_size (map (pre_parallel info body) ds)) (length ds)).1
                  (next_level_size-settled ds all) in
              cc)
      create_levels-some (suc k) (suc fuel) s above (x ∷ xs) lt pos all =
          let ds = x ∷ xs in
          round-some (redistribute s ds).1
            (next_level_size (map (pre_parallel info body) ds) == length ds) _ _ _
            (λ more.
              create_levels-some k fuel _ _ _ (omega arith) (next_parts-pos has ds pos)
                (next_parts-AllSettle k ds all))

      -- For hooks that may be repeated, and problems that have children unless they are base cases:
      -- where the recursion returns for the root, with fuel for as many levels as the loop has
      -- rounds, the construction of the tree ends, whatever answers `redistribute` gives.
      pub create_tree-some :
          (f fuel : ℕ) (s : D) (root : T) (r : R)
          → f ≤ fuel
          → array_serial info body f root ≡ some r
          → (p : D × Tree T) × (create_tree info body redistribute fuel s root ≡ some p)
      unfolding create_tree array_serial decompose subproblem
      create_tree-some zero fuel s root r le e = cc
      create_tree-some (suc f) fuel s root r le e =
          round-some (redistribute s (root ∷ [])).1 (info.is_base (body.pre root)) _ _ _ (λ node.
            let (kids, all) = node-results f root r node e in
            let (p, built) =
              create_levels-some f fuel (redistribute s (root ∷ [])).0 [] _ (omega arith)
                (omega (
                  arith,
                  length-segment (subproblem root) 0
                      (info.num_children (body.pre_rec (body.pre root))).1,
                  has.some_child root node,
                ))
                (segment-AllSettle f _ _ 0 kids all) in
            (
              (
                p.0,
                record {
                  root = (info.num_children (body.pre_rec (body.pre root))).0;
                  decomposed = true;
                  above = p.1;
                  last = p.2;
                },
              ),
              rw built refl,
            ))
