-- ===== src/StealStack/View.antt =====
-- The stack as the list of its unprocessed elements, bottom first, and the owner's operations on it.
use native.Mathlib.Nat.{div-add-mod, le-div_iff_mul-le, mod-lt}
use dparallel_recursion.Common.{
  ℕ, ◌+◌, ◌-◌, ◌*◌, ◌/◌, ◌%◌, ◌≤◌, ◌<◌, ◌≡◌, ap, ◌∙◌, true, false, List, [], ◌∷◌, ◌++◌, ◌⊎◌, inl,
  inr, arith, dec_lt, update, segment, segment-split, segment-last, segment-update_above,
}
use dparallel_recursion.StealStack.{
  StealStack, ss_init, ss_push_simple, ss_top, ss_pop, ss_local_depth, ss_acquire,
  release_multiple_nodes,
}

pub record IsValid {ℓ} {T : Type ℓ} (s : StealStack T) : Type 0 where
  pub shared_le : s.shared_start ≤ s.local
  pub local_le : s.local ≤ s.top
  pub fits : s.top ≤ s.stack_size

-- The chunks that are released leave at least one chunk, and less than two, to the owner.
released_bounds :
    (k d : ℕ)
    → 0 < k
    → k * 2 < d
    → (k * (d / k - 1) ≤ d) × (k ≤ d - k * (d / k - 1)) × (d - k * (d / k - 1) < k * 2)
released_bounds k d pos h =
    let q_pos : 2 ≤ d / k = (le-div_iff_mul-le pos).1 (omega arith) in
    let whole : k * (d / k) + d % k ≡ d = div-add-mod d k in
    let small : d % k < k = mod-lt d pos in
    let less : k * (d / k - 1) + k ≡ k * (d / k) = grind arith in omega arith

module _ {ℓ} {T : Type ℓ} where
  abbrev pub items : StealStack T → List T
  items s = segment s.stack s.shared_start (s.top - s.shared_start)

  abbrev pub shared : StealStack T → List T
  shared s = segment s.stack s.shared_start (s.local - s.shared_start)

  abbrev pub locals : StealStack T → List T
  locals s = segment s.stack s.local (s.top - s.local)

  pub items-shared-locals : (s : StealStack T) → IsValid s → items s ≡ shared s ++ locals s
  items-shared-locals s v =
      let e : s.top - s.shared_start ≡ (s.local - s.shared_start) + (s.top - s.local) =
        omega arith in
      let e' : s.shared_start + (s.local - s.shared_start) ≡ s.local = omega arith in
      ap (segment s.stack s.shared_start) e
      ∙ segment-split s.stack s.shared_start (s.local - s.shared_start) (s.top - s.local)
      ∙ ap (λ a. shared s ++ segment s.stack a (s.top - s.local)) e'

  pub ss_init-IsValid : (fresh : T) (s : StealStack T) (n : ℕ) → IsValid (ss_init fresh s n)
  unfolding ss_init
  ss_init-IsValid fresh s n = ground arith

  -- Where there is room, a push keeps the stack well formed and adds its element on top.
  pub ss_push_simple-IsValid :
      (s : StealStack T) (c : T) → IsValid s → s.top < s.stack_size → IsValid (ss_push_simple s c)
  unfolding ss_push_simple
  ss_push_simple-IsValid s c v h = ground arith

  pub items-ss_push_simple :
      (s : StealStack T) (c : T) → IsValid s → items (ss_push_simple s c) ≡ items s ++ c ∷ []
  unfolding ss_push_simple
  items-ss_push_simple s c v =
      let e : s.top + 1 - s.shared_start ≡ (s.top - s.shared_start) + 1 = omega arith in
      let e' : s.shared_start + (s.top - s.shared_start) ≡ s.top = omega arith in
      let written : update s.stack s.top c (s.shared_start + (s.top - s.shared_start)) ≡ c =
        ground arith in
      ap (segment (update s.stack s.top c) s.shared_start) e
      ∙ segment-last (update s.stack s.top c) s.shared_start (s.top - s.shared_start)
      ∙ ap (λ x. segment (update s.stack s.top c) s.shared_start (s.top - s.shared_start) ++ x ∷ [])
          written
      ∙ ap (λ l. l ++ c ∷ [])
          (segment-update_above s.stack s.shared_start (s.top - s.shared_start) s.top c
            (omega arith))

  -- A pop takes the element that `ss_top` shows off the local portion.
  pub ss_pop-IsValid : (s : StealStack T) → IsValid s → s.local < s.top → IsValid (ss_pop s)
  unfolding ss_pop
  ss_pop-IsValid s v h = ground arith

  -- A pop of a well-formed stack with local work takes off the top element, and no other.
  pub items-ss_pop :
      (s : StealStack T) → IsValid s → s.local < s.top → items s ≡ items (ss_pop s) ++ ss_top s ∷ []
  unfolding ss_pop ss_top
  items-ss_pop s v h =
      let e : s.top - s.shared_start ≡ (s.top - 1 - s.shared_start) + 1 = omega arith in
      let e' : s.shared_start + (s.top - 1 - s.shared_start) ≡ s.top - 1 = omega arith in
      ap (segment s.stack s.shared_start) e
      ∙ segment-last s.stack s.shared_start (s.top - 1 - s.shared_start)
      ∙ ap (λ i. items (ss_pop s) ++ s.stack i ∷ []) e'

  -- A release and an acquisition move the border between the portions, and no element.
  pub release_multiple_nodes-IsValid :
      (s : StealStack T) (k : ℕ) → 0 < k → IsValid s → IsValid (release_multiple_nodes s k).0
  unfolding release_multiple_nodes
  release_multiple_nodes-IsValid s k pos v = ground (arith, released_bounds k (s.top - s.local) pos)

  pub items-release_multiple_nodes :
      (s : StealStack T) (k : ℕ) → items (release_multiple_nodes s k).0 ≡ items s
  unfolding release_multiple_nodes
  items-release_multiple_nodes s k = ground arith

  pub ss_acquire-IsValid : (s : StealStack T) (k : ℕ) → IsValid s → IsValid (ss_acquire s k).0
  unfolding ss_acquire
  ss_acquire-IsValid s k v = ground arith

  pub items-ss_acquire : (s : StealStack T) (k : ℕ) → items (ss_acquire s k).0 ≡ items s
  unfolding ss_acquire
  items-ss_acquire s k = ground arith

  -- On a well-formed stack, with chunks of at least one element: beyond two chunks of local work,
  -- the release leaves the owner at least one chunk and less than two, and says so; up to two chunks
  -- it does nothing.
  pub release_multiple_nodes-depth :
      (s : StealStack T) (k : ℕ)
      → 0 < k
      → IsValid s
      → ((k * 2 < ss_local_depth s)
          × (k ≤ ss_local_depth (release_multiple_nodes s k).0)
          × (ss_local_depth (release_multiple_nodes s k).0 < k * 2)
          × ((release_multiple_nodes s k).1 ≡ true))
        ⊎ ((ss_local_depth s ≤ k * 2) × (release_multiple_nodes s k ≡ (s, false)))
  unfolding release_multiple_nodes
  release_multiple_nodes-depth s k pos v = elim (dec_lt (k * 2) (s.top - s.local)) [
    | yes deep ↦ inl (ground (arith, released_bounds k (s.top - s.local) pos))
    | no shallow ↦ inr (ground arith)
  ]
