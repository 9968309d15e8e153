-- ===== src/DistributedTree.antt =====
-- include/dparallel_recursion/DInfo.h (create_tree, decompose) and dparallel_recursion.h (reduction): the
-- tree of subproblems that the distributed skeleton builds level by level before it shares them out, and
-- the reduction of their results, level by level up to the root.
pub mod Repeatable
pub mod Levels
pub mod Whole
pub mod Depth
use dparallel_recursion.Common.{
  ℕ, zero, suc, ◌+◌, Bool, true, false, Option, none, some, ◌>>=◌, ◌==◌, if◌then◌else◌, List, [],
  ◌∷◌, ◌++◌, map, length, segment,
}
use dparallel_recursion.ArrayRecursion.{ArrayInfo, ArrayBody}

-- `last` is the level at the bottom (lastTreeLevel), and `above` the levels between it and the root, the
-- deepest first; a hole is `none`. `decomposed` says whether there is a level below the root.
pub record Tree {ℓ} (T : Type ℓ) : Type ℓ where
  pub root : T
  pub decomposed : Bool
  pub above : List (List (Option T))
  pub last : List T

module _ {ℓ} {A : Type ℓ} where
  -- The first `n` elements and the rest, where there are as many.
  unfoldable pub split_front : ℕ → List A → Option (List A × List A)
  split_front zero l = some ([], l)
  split_front (suc n) [] = none
  split_front (suc n) (x ∷ l) = split_front n l >>= λ p. some (x ∷ p.0, p.1)

  -- local_results[0]
  unfoldable pub first_result : List A → Option A
  first_result [] = none
  first_result (x ∷ l) = some x

-- next_level_size, the sum of nelems_vector
unfoldable pub next_level_size {ℓ} : {T : Type ℓ} → List (T × ℕ) → ℕ
next_level_size [] = 0
next_level_size (p ∷ ps) = p.1 + next_level_size ps

module _ {ℓ} {T : Type ℓ} (info : ArrayInfo T) where
  -- decompose: the subproblems, in their order.
  unfoldable pub decompose : T → List T
  decompose d = segment (λ i. info.child i (info.num_children d).0) 0 (info.num_children d).1

  -- A problem with one entry moves down and leaves a hole; the others stay, and their subproblems
  -- follow at the next level.
  unfoldable pub next_entry : T × ℕ → Option T
  next_entry p = if p.1 == 1 then none else some (info.num_children p.0).0

  unfoldable pub next_part : T × ℕ → List T
  unfolding decompose
  next_part p = if p.1 == 1 then p.0 ∷ [] else decompose p.0

  unfoldable pub next_parts : List (T × ℕ) → List T
  unfolding next_part
  next_parts [] = []
  next_parts (p ∷ ps) = next_part p ++ next_parts ps

module _ {ℓ κ} {T : Type ℓ} {R : Type κ} (info : ArrayInfo T) (body : ArrayBody T R) where
  -- PreParallelHelper: the problem after its hooks, and its entry in nelems_vector.
  unfoldable pub pre_parallel : T → T × ℕ
  pre_parallel d =
      if info.is_base (body.pre d)
      then (body.pre d, 1)
      else info.num_children (body.pre_rec (body.pre d))

  -- ParallelReduceHelper at each problem of a level, on the results of the level below: a hole takes its
  -- result over. The positions are those of reduction(), which asks is_base and num_children again.
  unfoldable pub reduce_level : List (Option T) → List R → Option (List R)
  unfolding split_front
  reduce_level [] rs = some []
  reduce_level (none ∷ es) [] = none
  reduce_level (none ∷ es) (r ∷ rs) = reduce_level es rs >>= λ qs. some (r ∷ qs)
  reduce_level (some d ∷ es) rs =
      let d' = if info.is_base d then (d, 1) else info.num_children d in
      split_front d'.1 rs >>= λ p. reduce_level es p.1 >>= λ qs. some (body.post d'.0 p.0 ∷ qs)

  unfoldable pub reduce_levels : List (List (Option T)) → List R → Option (List R)
  unfolding reduce_level
  reduce_levels [] rs = some rs
  reduce_levels (l ∷ ls) rs = reduce_level l rs >>= λ qs. reduce_levels ls qs

  -- reduction(), and what it leaves in local_results[0], where there is such a place
  unfoldable pub reduction : Tree T → List R → Option R
  unfolding reduce_levels first_result
  reduction t rs = first_result rs >>= λ r.
      let whole = reduce_levels t.above rs >>= λ qs. some (body.post t.root qs) in
      if t.decomposed then whole else some r

  -- `redistribute` is that of the distribution `D`: it sees the last level, and says whether to stop.
  module _ {κ'} {D : Type κ'} (redistribute : D → List T → D × Bool) where
    -- The loop of create_tree from level 1 on, at most `fuel` rounds. An empty level has no first
    -- entry, which the loop and the code after it use: it has no result.
    unfoldable pub create_levels :
        ℕ → D → List (List (Option T)) → List T → Option (D × List (List (Option T)) × List T)
    unfolding pre_parallel next_entry next_parts next_level_size
    create_levels zero s above last = none
    create_levels (suc fuel) s above [] = none
    create_levels (suc fuel) s above (d ∷ ds) =
        let last = d ∷ ds in
        let s' = (redistribute s last).0 in
        let visited = map pre_parallel last in
        let deeper =
          create_levels fuel s' (map (next_entry info) visited ∷ above) (next_parts info visited) in
        if (redistribute s last).1
        then some (s', above, last)
        else (if next_level_size visited == length last
            then some (s', above, map (λ p. p.0) visited)
            else deeper)

    unfoldable pub create_tree : ℕ → D → T → Option (D × Tree T)
    unfolding create_levels decompose
    create_tree fuel s root =
        let s' = (redistribute s (root ∷ [])).0 in
        let d = body.pre root in
        let d' = body.pre_rec d in
        let alone = λ (r : T).
          some (s', record { root = r; decomposed = false; above = []; last = r ∷ [] }) in
        let deeper = create_levels fuel s' [] (decompose info d') >>= λ p. some (
          p.0,
          record { root = (info.num_children d').0; decomposed = true; above = p.1; last = p.2 },
        ) in
        if (redistribute s (root ∷ [])).1
        then alone root
        else (if info.is_base d then alone d else deeper)
