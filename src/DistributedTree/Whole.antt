-- ===== src/DistributedTree/Whole.antt =====
-- The whole tree: the results of its last level reduce to the result of the root.
use dparallel_recursion.Common.{
  ℕ, zero, suc, ◌<◌, ◌≡◌, refl, arith, sym, ap, subst, ◌∙◌, Bool, true, false, Option, some,
  >>=-eq-some, some_injective, ◌==◌, List, [], ◌∷◌, map, length, Bool-cases, inl, inr,
}
use dparallel_recursion.ArrayRecursion.{
  ArrayInfo, ArrayBody, results_from, array_node, array_serial,
}
use dparallel_recursion.TaskRecursion.Fuel.{results_from-more, array_serial-suc}
use dparallel_recursion.DistributedTree.{
  Tree, pre_parallel, decompose, next_entry, next_parts, first_result, reduce_levels, reduction,
  create_levels, create_tree, next_level_size,
}
use dparallel_recursion.DistributedTree.Repeatable.{
  IsRepeatable, results_of, results_of-segment, array_serial-visited,
}
use dparallel_recursion.DistributedTree.Levels.{level-Reduces}

module _ {ℓ κ} {T : Type ℓ} {R : Type κ} (info : ArrayInfo T) (body : ArrayBody T R)
    (law : IsRepeatable info body) where
  open law use {num_children_same, pre_again, pre_after_rec, is_base_same}

  results_of-visited :
      (f : ℕ) (ds : List T)
      → results_of (array_serial info body f) (map (λ p. p.0) (map (pre_parallel info body) ds))
        ≡ results_of (array_serial info body f) ds
  unfolding results_of
  results_of-visited f [] = refl
  results_of-visited f (d ∷ ds) =
      rw (array_serial-visited info body law f d, results_of-visited f ds) refl

  -- The root itself, before it is decomposed and after.
  array_serial-pre :
      (f : ℕ) (d : T)
      → info.is_base (body.pre d) ≡ true
      → array_serial info body f (body.pre d) ≡ array_serial info body f d
  unfolding pre_parallel
  array_serial-pre f d base =
      let same : body.pre d ≡ (pre_parallel info body d).0 = rw base refl in
      ap (array_serial info body f) same ∙ array_serial-visited info body law f d

  module _ {κ'} {D : Type κ'} (redistribute : D → List T → D × Bool) where
    create_levels-Reduces :
        (f fuel : ℕ) (s s' : D) (above above' : List (List (Option T))) (ds ds' : List T)
        (rs : List R)
        → results_of (array_serial info body f) ds ≡ some rs
        → create_levels info body redistribute fuel s above ds ≡ some (s', above', ds')
        → (qs : List R) × (results_of (array_serial info body f) ds' ≡ some qs)
          × (reduce_levels info body above' qs ≡ reduce_levels info body above rs)
    unfolding create_levels reduce_levels
    create_levels-Reduces f zero s s' above above' ds ds' rs e run = cc
    create_levels-Reduces f (suc fuel) s s' above above' [] ds' rs e run = cc
    create_levels-Reduces f (suc fuel) s s' above above' (x ∷ xs) ds' rs e run =
        let ds = x ∷ xs in
        elim (Bool-cases (redistribute s ds).1) [
          | inl stop ↦
              let same = some_injective _ _ (rw stop at run) in
              (
                rs,
                subst (λ x. results_of (array_serial info body f) x ≡ some rs) (ap (λ p. p.2) same)
                    e,
                ap (λ p. reduce_levels info body p.1 rs) (sym same),
              )
          | inr go ↦
              let visited = map (pre_parallel info body) ds in
              elim (Bool-cases (next_level_size visited == length ds)) [
                | inl all_base ↦
                    let same = some_injective _ _ (rw (go, all_base) at run) in
                    (
                      rs,
                      subst (λ x. results_of (array_serial info body f) x ≡ some rs)
                          (ap (λ p. p.2) same) (results_of-visited f ds ∙ e),
                      ap (λ p. reduce_levels info body p.1 rs) (sym same),
                    )
                | inr more ↦
                    let (qs, below, up) = level-Reduces info body law f ds rs e in
                    let (ts, last, whole) =
                      create_levels-Reduces f fuel (redistribute s ds).0 s'
                        (map (next_entry info) visited ∷ above) above' (next_parts info visited) ds'
                        qs below (rw (go, more) at run) in
                    (ts, last, whole ∙ (rw up refl))
              ]
        ]

    -- The last level is not empty.
    create_levels-pos :
        (fuel : ℕ) (s s' : D) (above above' : List (List (Option T))) (ds ds' : List T)
        → create_levels info body redistribute fuel s above ds ≡ some (s', above', ds')
        → 0 < length ds'
    unfolding create_levels
    create_levels-pos zero s s' above above' ds ds' run = cc
    create_levels-pos (suc fuel) s s' above above' [] ds' run = cc
    create_levels-pos (suc fuel) s s' above above' (x ∷ xs) ds' run =
        let ds = x ∷ xs in
        elim (Bool-cases (redistribute s ds).1) [
          | inl stop ↦
              let same = ap (λ p. length p.2) (some_injective _ _ (rw stop at run)) in
              omega (arith, same)
          | inr go ↦
              elim (Bool-cases (next_level_size (map (pre_parallel info body) ds) == length ds)) [
                | inl all_base ↦
                    let same =
                      ap (λ p. length p.2) (some_injective _ _ (rw (go, all_base) at run)) in
                    omega (arith, same)
                | inr more ↦ create_levels-pos fuel _ s' _ above' _ ds' (rw (go, more) at run)
              ]
        ]

    first_result-some :
        (rec : T → Option R) (ds : List T) (rs : List R)
        → results_of rec ds ≡ some rs
        → 0 < length ds
        → (r : R) × (first_result rs ≡ some r)
    unfolding results_of first_result
    first_result-some rec [] rs e lt = absurd (omega arith)
    first_result-some rec (d ∷ ds) [] e lt =
        let (r, first, rest) = >>=-eq-some (rec d) _ e in
        let (ts, all, last) = >>=-eq-some (results_of rec ds) _ rest in cc
    first_result-some rec (d ∷ ds) (r ∷ rs) e lt = (r, refl)

    Gives : ℕ → R → Tree T → Type κ
    Gives f r t =
        (rs : List R) × (results_of (array_serial info body f) t.last ≡ some rs)
        × (reduction info body t rs ≡ some r)

    alone-Gives :
        (f : ℕ) (d : T) (r : R)
        → array_serial info body f d ≡ some r
        → Gives f r (record { root = d; decomposed = false; above = []; last = d ∷ [] })
    unfolding Gives results_of reduction first_result
    alone-Gives f d r e = (r ∷ [], rw e refl, refl)

    decomposed-Gives :
        (f fuel : ℕ) (s : D) (d : T) (kids : List R) (p : D × List (List (Option T)) × List T)
        → results_from
            (array_serial info body f)
            (λ i. info.child i (info.num_children d).0)
            (info.num_children d).1
            0
          ≡ some kids
        → create_levels info body redistribute fuel s [] (decompose info d) ≡ some p
        → Gives
            (suc f)
            (body.post (info.num_children d).0 kids)
            (record { root = (info.num_children d).0; decomposed = true; above = p.1; last = p.2 })
    unfolding Gives reduction decompose reduce_levels
    decomposed-Gives f fuel s d kids p all run =
        let child : ℕ → T = λ i. info.child i (info.num_children d).0 in
        let first =
          results_of-segment (array_serial info body (suc f)) child (info.num_children d).1 0
          ∙ results_from-more (array_serial info body f) (array_serial info body (suc f)) child _ 0
              kids (array_serial-suc info body f) all in
        let (qs, last, up) =
          create_levels-Reduces (suc f) fuel s p.0 [] p.1 (decompose info d) p.2 kids first run in
        let (r, there) =
          first_result-some (array_serial info body (suc f)) p.2 qs last
            (create_levels-pos fuel s p.0 [] p.1 (decompose info d) p.2 run) in
        (qs, last, rw (there, up) refl)

    -- For hooks that may be repeated, whatever answers `redistribute` gives: where the recursion has
    -- a result for the root, and a tree has been made for it, the problems at the last level of the
    -- tree have results, and the reduction of these is that of the root.
    pub reduction-array_serial :
        (f fuel : ℕ) (s s' : D) (root : T) (t : Tree T) (r : R)
        → array_serial info body f root ≡ some r
        → create_tree info body redistribute fuel s root ≡ some (s', t)
        → (rs : List R) × (results_of (array_serial info body f) t.last ≡ some rs)
          × (reduction info body t rs ≡ some r)
    unfolding create_tree array_serial array_node Gives
    reduction-array_serial zero fuel s s' root t r e run = cc
    reduction-array_serial (suc f) fuel s s' root t r e run =
        elim (Bool-cases (redistribute s (root ∷ [])).1) [
          | inl stop ↦
              subst (Gives (suc f) r) (ap (λ p. p.1) (some_injective _ _ (rw stop at run)))
                (alone-Gives (suc f) root r e)
          | inr go ↦ elim (Bool-cases (info.is_base (body.pre root))) [
            | inl base ↦
                let same = some_injective _ _ (rw (go, base) at run) in
                subst (Gives (suc f) r) (ap (λ p. p.1) same)
                  (alone-Gives (suc f) (body.pre root) r (array_serial-pre (suc f) root base ∙ e))
            | inr node ↦
                let (kids, all, value) =
                  >>=-eq-some (results_from (array_serial info body f) _ _ 0) _ (rw node at e) in
                let (p, levels, built) =
                  >>=-eq-some (create_levels info body redistribute fuel _ [] _) _
                    (rw (go, node) at run) in
                let same = some_injective _ _ built in
                subst (λ x. Gives (suc f) x t) (some_injective _ r value)
                  (subst (Gives (suc f) _) (ap (λ q. q.1) same)
                    (decomposed-Gives f fuel _ (body.pre_rec (body.pre root)) kids p all levels))
          ]
        ]
