-- ===== src/Threads/Push.antt =====
-- The loops of pushes: where each child ends up on the stack.
use dparallel_recursion.Common.{
  ℕ, zero, suc, ◌+◌, ◌-◌, ◌≤◌, ◌<◌, ◌≡◌, refl, sym, ap, ap₂, subst, ◌∙◌, List, ◌++◌, inl, inr,
  arith, if◌then◌else◌, update, segment, segment-cong, segment-split, Bool-cases,
}
use dparallel_recursion.Skeleton.{Config}
use dparallel_recursion.StealStack.{
  StealStack, ss_push_simple, ss_setvalue_pos, ss_pop, ss_top_posn,
}
use dparallel_recursion.StealStack.View.{IsValid, items}
use dparallel_recursion.Threads.{push_up, push_down, push_children}

-- `t` is `s` with the elements `g 0`, ..., `g (n - 1)` pushed on it.
pub record Pushes {ℓ} {T : Type ℓ} (s t : StealStack T) (g : ℕ → T) (n : ℕ) : Type ℓ where
  pub new_top : t.top ≡ s.top + n
  pub new_local : t.local ≡ s.local
  pub new_shared : t.shared_start ≡ s.shared_start
  pub new_size : t.stack_size ≡ s.stack_size
  pub below : (j : ℕ) → j < s.top → t.stack j ≡ s.stack j
  pub above : (k : ℕ) → k < n → t.stack (s.top + k) ≡ g k

module _ {ℓ} {T : Type ℓ} where
  nothing-Pushes : (s : StealStack T) (g : ℕ → T) → Pushes s s g 0
  nothing-Pushes s g = record {
    new_top = omega arith;
    new_local = refl;
    new_shared = refl;
    new_size = refl;
    below = λ j lt. refl;
    above = λ k lt. absurd (omega arith);
  }

  first-Pushes :
      {s t : StealStack T} (c : T) (g h : ℕ → T) (n : ℕ)
      → Pushes (ss_push_simple s c) t g n
      → h 0 ≡ c
      → ((k : ℕ) → k < n → h (suc k) ≡ g k)
      → Pushes s t h (suc n)
  unfolding ss_push_simple
  first-Pushes {s} {t} c g h n p first rest = record {
    new_top = omega (arith, p.new_top);
    new_local = p.new_local;
    new_shared = p.new_shared;
    new_size = p.new_size;
    below = λ j lt. p.below j (omega arith) ∙ ground arith;
    above = above;
  }
    where
      above : (k : ℕ) → k < suc n → t.stack (s.top + k) ≡ h k
      above zero lt =
          let e : s.top + 0 ≡ s.top = omega arith in
          ap t.stack e ∙ p.below s.top (omega arith) ∙ ground arith
      above (suc k) lt =
          let e : s.top + suc k ≡ s.top + 1 + k = omega arith in
          ap t.stack e ∙ p.above k (omega arith) ∙ sym (rest k (omega arith))

  push_up-Pushes :
      (child : ℕ → T) (n i : ℕ) (s : StealStack T)
      → Pushes s (push_up child n i s) (λ k. child (i + k)) n
  unfolding push_up
  push_up-Pushes child zero i s = nothing-Pushes s _
  push_up-Pushes child (suc n) i s =
      first-Pushes (child i) _ _ n (push_up-Pushes child n (i + 1) (ss_push_simple s (child i)))
        (ap child (omega arith)) (λ k lt. ap child (omega arith))

  push_down-Pushes :
      (child : ℕ → T) (n : ℕ) (s : StealStack T)
      → Pushes s (push_down child n s) (λ k. child (n - 1 - k)) n
  unfolding push_down
  push_down-Pushes child zero s = nothing-Pushes s _
  push_down-Pushes child (suc n) s =
      first-Pushes (child n) _ _ n (push_down-Pushes child n (ss_push_simple s (child n)))
        (ap child (omega arith)) (λ k lt. ap child (omega arith))

  -- The order in which the children stand on the stack, from the bottom.
  abbrev pub placed : Config → (ℕ → T) → ℕ → ℕ → T
  placed config child n k = if config.force_l_to_r then child (n - 1 - k) else child k

  -- One more element overwrites the one that was on top before the pushes.
  items-overwrite :
      (s t : StealStack T) (c : T) (g h : ℕ → T) (n : ℕ)
      → IsValid s
      → s.local < s.top
      → Pushes s t g n
      → h 0 ≡ c
      → ((k : ℕ) → k < n → h (suc k) ≡ g k)
      → items (ss_setvalue_pos t c (s.top - 1)) ≡ items (ss_pop s) ++ segment h 0 (suc n)
  unfolding ss_setvalue_pos ss_pop
  items-overwrite s t c g h n v lt p first rest =
      ap₂ (λ a m. segment written a m) p.new_shared (ap₂ ◌-◌ p.new_top p.new_shared ∙ whole)
      ∙ segment-split written s.shared_start (s.top - 1 - s.shared_start) (suc n)
      ∙ ap₂ ◌++◌
          (segment-cong written s.stack s.shared_start s.shared_start (s.top - 1 - s.shared_start)
            (λ k k_lt. old (s.shared_start + k) (omega arith)))
          (ap (λ a. segment written a (suc n)) start
            ∙ segment-cong written h (s.top - 1) 0 (suc n) new)
    where
      written : ℕ → T
      written = update t.stack (s.top - 1) c

      whole : s.top + n - s.shared_start ≡ (s.top - 1 - s.shared_start) + suc n
      whole = omega (arith, v.shared_le)

      start : s.shared_start + (s.top - 1 - s.shared_start) ≡ s.top - 1
      start = omega (arith, v.shared_le)

      old : (j : ℕ) → j < s.top - 1 → written j ≡ s.stack j
      old j j_lt = ground (arith, p.below j)

      new : (k : ℕ) → k < suc n → written (s.top - 1 + k) ≡ h (0 + k)
      new zero k_lt =
          let e : s.top - 1 + 0 ≡ s.top - 1 = omega arith in
          let e' : 0 + 0 ≡ 0 = omega arith in ground (arith, ap h e')
      new (suc k) k_lt =
          let e : s.top - 1 + suc k ≡ s.top + k = omega arith in
          let e' : 0 + suc k ≡ suc k = omega arith in
          ap written e ∙ ground (arith, p.above k) ∙ sym (rest k (omega arith)) ∙ ap h (sym e')

  -- `t` holds `kids` in place of the top element of `s`.
  pub record Replaces (s t : StealStack T) (kids : List T) : Type ℓ where
    pub new_items : items t ≡ items (ss_pop s) ++ kids
    pub valid : IsValid t
    pub same_local : t.local ≡ s.local
    pub same_shared : t.shared_start ≡ s.shared_start

  overwrite-Replaces :
      (s t : StealStack T) (c : T) (g h : ℕ → T) (n : ℕ)
      → IsValid s
      → s.local < s.top
      → s.top + suc n ≤ s.stack_size
      → Pushes s t g n
      → h 0 ≡ c
      → ((k : ℕ) → k < n → h (suc k) ≡ g k)
      → Replaces s (ss_setvalue_pos t c (ss_top_posn t + 1 - suc n)) (segment h 0 (suc n))
  unfolding ss_setvalue_pos ss_top_posn
  overwrite-Replaces s t c g h n v lt room p first rest =
      let e : t.top - 1 + 1 - suc n ≡ s.top - 1 = omega (arith, p.new_top) in
      record {
        new_items =
            ap (λ q. items (ss_setvalue_pos t c q)) e
            ∙ items-overwrite s t c g h n v lt p first rest;
        valid = record {
          shared_le = omega (arith, v.shared_le, p.new_shared, p.new_local);
          local_le = omega (arith, p.new_local, p.new_top);
          fits = omega (arith, p.new_size, p.new_top);
        };
        same_local = p.new_local;
        same_shared = p.new_shared;
      }

  -- On a well-formed stack with local work and room for the children, one or more, they replace the
  -- top element, in the order that the macros choose; the stack stays well formed and its portions
  -- begin where they did.
  pub items-push_children :
      (config : Config) (child : ℕ → T) (n : ℕ) (s : StealStack T)
      → IsValid s
      → s.local < s.top
      → s.top + suc n ≤ s.stack_size
      → Replaces s
          (push_children config child (suc n) s)
          (segment (placed config child (suc n)) 0 (suc n))
  unfolding push_children
  items-push_children config child n s v lt room =
      let less : suc n - 1 ≡ n = omega arith in
      elim (Bool-cases config.force_l_to_r) [
        | inl e ↦ rw e (
            overwrite-Replaces s _ _ _ (λ k. child (suc n - 1 - k)) n v lt room
              (subst (λ m. Pushes s (push_down child (suc n - 1) s) (λ k. child (m - 1 - k)) m) less
                (push_down-Pushes child (suc n - 1) s))
              (ap child (omega arith)) (λ k k_lt. ap child (omega arith)))
        | inr e ↦ rw e (
            overwrite-Replaces s _ _ _ child n v lt room
              (subst (λ m. Pushes s (push_up child (suc n - 1) 1 s) (λ k. child (1 + k)) m) less
                (push_up-Pushes child (suc n - 1) 1 s))
              refl (λ k k_lt. ap child (omega arith)))
      ]
