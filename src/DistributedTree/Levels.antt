-- ===== src/DistributedTree/Levels.antt =====
-- One level of the tree and back: the results of the next level reduce to those of this one.
use dparallel_recursion.Common.{
  ℕ, zero, suc, ◌≡◌, refl, sym, ap, ◌∙◌, true, false, Option, some, ◌>>=◌, >>=-eq-some,
  some_injective, ◌==◌, List, [], ◌∷◌, ◌++◌, map, length, Bool-cases, inl, inr,
}
use dparallel_recursion.ArrayRecursion.{
  ArrayInfo, ArrayBody, results_from, array_node, array_serial,
}
use dparallel_recursion.TaskRecursion.Fuel.{results_from-more, array_serial-suc}
use dparallel_recursion.DistributedTree.{
  pre_parallel, decompose, next_entry, next_part, next_parts, reduce_level,
}
use dparallel_recursion.DistributedTree.Repeatable.{
  IsRepeatable, results_of, results_of-segment, results_of-append, split_front-append,
  results_from-length, array_serial-visited,
}

module _ {ℓ κ} {T : Type ℓ} {R : Type κ} (info : ArrayInfo T) (body : ArrayBody T R)
    (law : IsRepeatable info body) where
  open law use {num_children_same, is_base_same}

  one_if_base :
      (d : T) → info.is_base (body.pre d) ≡ true → ((pre_parallel info body d).1 == 1) ≡ true
  unfolding pre_parallel
  one_if_base d base = rw base refl

  -- What the part of a problem at the next level has to give, for the result `r` of the problem.
  abbrev Reduces : ℕ → T → R → List R → Type (ℓ ⊔ κ)
  Reduces f d r rs =
      (results_of (array_serial info body f) (next_part info (pre_parallel info body d)) ≡ some rs)
      × ((es : List (Option T)) (qs : List R)
          → reduce_level info body (next_entry info (pre_parallel info body d) ∷ es) (rs ++ qs)
            ≡ (reduce_level info body es qs >>= λ ts. some (r ∷ ts)))

  moved-Reduces :
      (f : ℕ) (d : T) (r : R)
      → ((pre_parallel info body d).1 == 1) ≡ true
      → array_serial info body f d ≡ some r
      → Reduces f d r (r ∷ [])
  unfolding next_part next_entry reduce_level results_of
  moved-Reduces f d r one e =
      (rw (one, array_serial-visited info body law f d) (rw e refl), λ es qs. rw one refl)

  reduce_level-some :
      (d : T) (kids : List R) (es : List (Option T)) (qs : List R)
      → info.is_base d ≡ false
      → length kids ≡ (info.num_children d).1
      → reduce_level info body (some d ∷ es) (kids ++ qs)
        ≡ (reduce_level info body es qs >>= λ ts. some (body.post d kids ∷ ts))
  unfolding reduce_level
  reduce_level-some d kids es qs node count =
      rw node (rw (num_children_same d) (rw (split_front-append kids qs _ count) refl))

  expanded-Reduces :
      (f : ℕ) (d : T) (r : R) (kids : List R)
      → info.is_base (body.pre d) ≡ false
      → ((pre_parallel info body d).1 == 1) ≡ false
      → results_from
          (array_serial info body f)
          (λ i. info.child i (info.num_children (body.pre_rec (body.pre d))).0)
          (info.num_children (body.pre_rec (body.pre d))).1
          0
        ≡ some kids
      → r ≡ body.post (info.num_children (body.pre_rec (body.pre d))).0 kids
      → Reduces (suc f) d r kids
  unfolding pre_parallel next_part next_entry decompose
  expanded-Reduces f d r kids node many all last =
      let same = num_children_same (body.pre_rec (body.pre d)) in
      let count =
        results_from-length (array_serial info body f)
          (λ i. info.child i (info.num_children (body.pre_rec (body.pre d))).0) _ 0 kids all in
      let many' : ((info.num_children (body.pre_rec (body.pre d))).1 == 1) ≡ false =
        rw node at many in
      let entry : next_entry info (pre_parallel info body d) ≡ some (body.pre_rec (body.pre d)) =
        rw (node, many', same, same) refl in
      let deeper =
        results_from-more (array_serial info body f) (array_serial info body (suc f))
          (λ i. info.child i (info.num_children (body.pre_rec (body.pre d))).0) _ 0 kids
          (array_serial-suc info body f) all in
      (
        rw
            (
              node,
              many',
              same,
              results_of-segment (array_serial info body (suc f))
                  (λ i. info.child i (info.num_children (body.pre_rec (body.pre d))).0)
                  (info.num_children (body.pre_rec (body.pre d))).1 0,
            )
            deeper,
        λ es qs.
            rw (entry, last, same)
              (reduce_level-some (body.pre_rec (body.pre d)) kids es qs
                (is_base_same (body.pre d) ∙ node) (count)),
      )

  part-Reduces :
      (f : ℕ) (d : T) (r : R)
      → array_serial info body f d ≡ some r
      → (rs : List R) × Reduces f d r rs
  unfolding array_serial array_node
  part-Reduces zero d r e = cc
  part-Reduces (suc f) d r e = elim (Bool-cases ((pre_parallel info body d).1 == 1)) [
    | inl one ↦ (r ∷ [], moved-Reduces (suc f) d r one e)
    | inr many ↦ elim (Bool-cases (info.is_base (body.pre d))) [
      | inl base ↦ let clash : true ≡ false = sym (one_if_base d base) ∙ many in cc
      | inr node ↦
          let (kids, all, last) =
            >>=-eq-some (results_from (array_serial info body f) _ _ 0) _ (rw node at e) in
          (kids, expanded-Reduces f d r kids node many all (sym (some_injective _ r last)))
    ]
  ]

  -- Where the problems of a level have the results `rs`, those of the next level have results too, and
  -- reduce to `rs`.
  pub level-Reduces :
      (f : ℕ) (ds : List T) (rs : List R)
      → results_of (array_serial info body f) ds ≡ some rs
      → (qs : List R) × (results_of
            (array_serial info body f)
            (next_parts info (map (pre_parallel info body) ds))
          ≡ some qs)
        × (reduce_level info body (map (next_entry info) (map (pre_parallel info body) ds)) qs
            ≡ some rs)
  unfolding results_of next_parts reduce_level
  level-Reduces f [] rs e = ([], refl, e)
  level-Reduces f (d ∷ ds) rs e =
      let (r, first, rest) = >>=-eq-some (array_serial info body f d) _ e in
      let (ts, all, last) = >>=-eq-some (results_of (array_serial info body f) ds) _ rest in
      let (qs, below, up) = level-Reduces f ds ts all in
      let (ps, piece) = part-Reduces f d r first in
      (
        ps ++ qs,
        results_of-append (array_serial info body f) _ _ ps qs piece.0 below,
        piece.1 (map (next_entry info) (map (pre_parallel info body) ds)) qs
            ∙ ap (λ o. o >>= λ ts'. some (r ∷ ts')) up
            ∙ last,
      )
