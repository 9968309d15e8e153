-- ===== src/StealStack/Grow.antt =====
-- Growing the stack keeps its elements, and ends with the room that was asked for.
use dparallel_recursion.Common.{
  ℕ, zero, suc, ◌+◌, ◌-◌, ◌≤◌, ◌<◌, ◌≡◌, refl, ap, ◌∙◌, Bool, true, false, ◌&&◌, inl, inr, arith,
  ltb, leb, segment-cong, Bool-cases, ltb→lt, leb→lt, [], ◌∷◌, ◌++◌,
}
use dparallel_recursion.StealStack.{
  StealStack, ss_grow_stack_size, grow_while, ss_check_stack_size, ss_push, ss_push_simple,
}
use dparallel_recursion.StealStack.View.{
  IsValid, items, ss_push_simple-IsValid, items-ss_push_simple,
}

-- `t` is `s` in a larger vector: the same elements, split into the same portions.
pub record IsRegrown {ℓ} {T : Type ℓ} (s t : StealStack T) : Type ℓ where
  pub same_items : items t ≡ items s
  pub same_shared : t.local - t.shared_start ≡ s.local - s.shared_start
  pub same_local : t.top - t.local ≡ s.top - s.local
  pub same_top : t.top ≤ s.top
  pub same_nodes : t.n_nodes ≡ s.n_nodes
  pub larger : s.stack_size ≤ t.stack_size
  pub valid : IsValid t

module _ {ℓ} {T : Type ℓ} (fresh : T) where
  items-ss_grow_stack_size :
      (s : StealStack T) → IsValid s → items (ss_grow_stack_size fresh s) ≡ items s
  unfolding ss_grow_stack_size
  items-ss_grow_stack_size s v =
      elim (Bool-cases (ltb 0 s.shared_start && ltb s.shared_start s.top)) [
        | inl e ↦
            let whole : s.top - s.shared_start - 0 ≡ s.top - s.shared_start = omega arith in
            rw (e, whole) (segment-cong _ s.stack 0 s.shared_start _ (λ k lt. ground arith))
        | inr e ↦
            rw e (segment-cong _ s.stack s.shared_start s.shared_start _ (λ k lt. ground arith))
      ]

  -- Growing keeps the elements and the portions, and the new vector has more cells.
  ss_grow_stack_size-IsRegrown :
      (s : StealStack T) → IsValid s → IsRegrown s (ss_grow_stack_size fresh s)
  unfolding ss_grow_stack_size
  ss_grow_stack_size-IsRegrown s v = record {
    same_items = items-ss_grow_stack_size s v;
    same_shared = ground arith;
    same_local = ground arith;
    same_top = ground arith;
    same_nodes = ground arith;
    larger = ground arith;
    valid = ground arith;
  }

  IsRegrown-refl : (s : StealStack T) → IsValid s → IsRegrown s s
  IsRegrown-refl s v = record {
    same_items = refl;
    same_shared = refl;
    same_local = refl;
    same_top = omega arith;
    same_nodes = refl;
    larger = omega arith;
    valid = v;
  }

  IsRegrown-trans : {s t u : StealStack T} → IsRegrown s t → IsRegrown t u → IsRegrown s u
  IsRegrown-trans a b = record {
    same_items = b.same_items ∙ a.same_items;
    same_shared = b.same_shared ∙ a.same_shared;
    same_local = b.same_local ∙ a.same_local;
    same_top = omega arith;
    same_nodes = b.same_nodes ∙ a.same_nodes;
    larger = omega arith;
    valid = b.valid;
  }

  pub grow_while-IsRegrown :
      (too_small : StealStack T → Bool) (fuel : ℕ) (s : StealStack T)
      → IsValid s
      → IsRegrown s (grow_while fuel too_small fresh s)
  unfolding grow_while
  grow_while-IsRegrown too_small zero s v = IsRegrown-refl s v
  grow_while-IsRegrown too_small (suc fuel) s v =
      let step = ss_grow_stack_size-IsRegrown s v in
      elim (Bool-cases (too_small s)) [
        | inl e ↦ rw e (IsRegrown-trans step (grow_while-IsRegrown too_small fuel _ step.valid))
        | inr e ↦ rw e (IsRegrown-refl s v)
      ]

  bigger : (s : StealStack T) → IsValid s → s.stack_size < (ss_grow_stack_size fresh s).stack_size
  unfolding ss_grow_stack_size
  bigger s v = ground arith

  -- The loop ends by its test.
  pub grow_while-room :
      (n : ℕ) (too_small : StealStack T → Bool)
      → ((t : StealStack T) → too_small t ≡ true → t.stack_size < t.top + n)
      → (fuel : ℕ) (s : StealStack T) → IsValid s
      → s.top + n ≤ fuel + s.stack_size
      → too_small (grow_while fuel too_small fresh s) ≡ false
  unfolding grow_while
  grow_while-room n too_small small zero s v h = elim (Bool-cases (too_small s)) [
    | inl e ↦ let lt = small s e in absurd (omega arith)
    | inr e ↦ e
  ]
  grow_while-room n too_small small (suc fuel) s v h = elim (Bool-cases (too_small s)) [
    | inl e ↦
        let step = ss_grow_stack_size-IsRegrown s v in
        rw e (grow_while-room n too_small small fuel _ step.valid (omega (arith, bigger s v)))
    | inr e ↦ rw e e
  ]

  -- On a well-formed stack `ss_checkStackSize` returns a well-formed one with room for the elements
  -- to add, the same elements, and portions of the same sizes.
  pub ss_check_stack_size-room :
      (s : StealStack T) (n : ℕ)
      → IsValid s
      → IsRegrown s (ss_check_stack_size fresh s n)
        × ((ss_check_stack_size fresh s n).top + n ≤ (ss_check_stack_size fresh s n).stack_size)
  unfolding ss_check_stack_size
  ss_check_stack_size-room s n v =
      let room =
        grow_while-room n (λ t. ltb t.stack_size (t.top + n)) (λ t e. ltb→lt _ _ e) (s.top + n) s v
          (omega arith) in
      (grow_while-IsRegrown _ (s.top + n) s v, ground arith)

  -- A push on a well-formed stack keeps it well formed, adds its element on top, however full the
  -- vector is, and keeps the size of the shared portion.
  pub items-ss_push :
      (s : StealStack T) (c : T)
      → IsValid s
      → IsValid (ss_push fresh s c)
        × (items (ss_push fresh s c) ≡ items s ++ c ∷ [])
        × ((ss_push fresh s c).local - (ss_push fresh s c).shared_start ≡ s.local - s.shared_start)
  unfolding ss_push ss_push_simple
  items-ss_push s c v =
      let room =
        grow_while-room 1 (λ t. leb t.stack_size t.top) (λ t e. ground arith) (s.top + 1) s v
          (omega arith) in
      let same = grow_while-IsRegrown (λ t. leb t.stack_size t.top) (s.top + 1) s v in
      (
        ss_push_simple-IsValid _ c same.valid (leb→lt _ _ room),
        items-ss_push_simple _ c same.valid ∙ ap (λ l. l ++ c ∷ []) same.same_items,
        same.same_shared,
      )
