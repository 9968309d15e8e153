-- ===== src/Serial.antt =====
-- include/dparallel_recursion/seq_parallel_stack_recursion.h: the sequential recursion that a task of
-- the stack skeletons runs, with its specialisations for a fixed arity, an arity known at run time,
-- arity 2, and bodies that return nothing. Fuel bounds the depth; `none` is fuel that ran out.
pub mod Total
pub mod Sound
pub mod Variants
pub mod Pointer
use dparallel_recursion.Common.{ℕ, zero, suc, ◌+◌, Bool, Option, none, some, ◌>>=◌, if◌then◌else◌}
use dparallel_recursion.Skeleton.{Info, Body, VoidBody, Config}

module _ {ℓ κ} {T : Type ℓ} {R : Type κ} where
  -- for (int i = 0; i < n; ++i), from the round `i` on, with `n` rounds left
  unfoldable pub loop_up : (R → T → Option R) → (ℕ → T) → ℕ → ℕ → R → Option R
  loop_up rec child zero i ret = some ret
  loop_up rec child (suc n) i ret = rec ret (child i) >>= loop_up rec child n (i + 1)

  -- for (int i = n - 1; i >= 0; --i)
  unfoldable pub loop_down : (R → T → Option R) → (ℕ → T) → ℕ → R → Option R
  loop_down rec child zero ret = some ret
  loop_down rec child (suc n) ret = rec ret (child n) >>= loop_down rec child n

  -- The loop over the children, in the order that the macros choose.
  unfoldable pub loop_children : Config → (R → T → Option R) → (ℕ → T) → ℕ → R → Option R
  unfolding loop_up loop_down
  loop_children config rec child n ret =
      if config.force_r_to_l then loop_down rec child n ret else loop_up rec child n 0 ret

  -- The unrolled loop of the specialisation for two children.
  unfoldable pub two_children : Config → (R → T → Option R) → (ℕ → T) → R → Option R
  two_children config rec child ret =
      if config.force_r_to_l
      then rec ret (child 1) >>= (λ r. rec r (child 0))
      else rec ret (child 0) >>= (λ r. rec r (child 1))

-- The overload that calls `do_serial_func` is chosen where the user's class has one.
unfoldable pub or_serial_func {ℓ κ} :
    {T : Type ℓ} {R : Type κ} → Option (T → R → R) → R → T → Option R → Option R
or_serial_func none ret datum rest = rest
or_serial_func (some g) ret datum rest = some (g datum ret)

module _ {ℓ κ} {T : Type ℓ} {R : Type κ} (info : Info T R) (body : Body T R) where
  -- One call on one datum, before and after the loop over its children.
  unfoldable pub serial_node : (T → R → Option R) → R → T → Option R
  serial_node children ret datum =
      let d = body.pre datum in
      let d' = body.pre_rec d in
      let ret' = if body.process_non_base then body.post (body.non_base d') ret else ret in
      let rest = children d' ret' in
      if info.is_base d then some (body.post (body.base d) ret) else rest

  -- Arity known at run time (I == 0).
  unfoldable pub do_it_serial : Config → ℕ → R → T → Option R
  unfolding serial_node or_serial_func loop_children
  do_it_serial config zero ret datum = none
  do_it_serial config (suc f) ret datum = or_serial_func info.do_serial_func ret datum (
      serial_node
        (λ d.
          loop_children config (do_it_serial config f) (λ i. info.child i d) (info.num_children d))
        ret datum)

  -- Fixed arity.
  unfoldable pub do_it_serial_fixed : Config → (arity : ℕ) → ℕ → R → T → Option R
  unfolding serial_node or_serial_func loop_children
  do_it_serial_fixed config arity zero ret datum = none
  do_it_serial_fixed config arity (suc f) ret datum = or_serial_func info.do_serial_func ret datum (
      serial_node
        (λ d. loop_children config (do_it_serial_fixed config arity f) (λ i. info.child i d) arity)
        ret datum)

  -- Arity 2.
  unfoldable pub do_it_serial_two : Config → ℕ → R → T → Option R
  unfolding serial_node or_serial_func two_children
  do_it_serial_two config zero ret datum = none
  do_it_serial_two config (suc f) ret datum = or_serial_func info.do_serial_func ret datum (
      serial_node (λ d. two_children config (do_it_serial_two config f) (λ i. info.child i d)) ret
        datum)

module _ {ℓ κ} {T : Type ℓ} {W : Type κ} (info : Info T W) (body : VoidBody T W) where
  unfoldable pub serial_node_void : (T → W → Option W) → W → T → Option W
  serial_node_void children w datum =
      let d = body.pre datum in
      let d' = body.pre_rec d in
      let w' = if body.process_non_base then body.non_base d' w else w in
      let rest = children d' w' in if info.is_base d then some (body.base d w) else rest

  unfoldable pub do_it_serial_void : Config → ℕ → W → T → Option W
  unfolding serial_node_void or_serial_func loop_children
  do_it_serial_void config zero w datum = none
  do_it_serial_void config (suc f) w datum = or_serial_func info.do_serial_func w datum (
      serial_node_void
        (λ d.
          loop_children config (do_it_serial_void config f) (λ i. info.child i d)
            (info.num_children d))
        w datum)

  unfoldable pub do_it_serial_void_fixed : Config → (arity : ℕ) → ℕ → W → T → Option W
  unfolding serial_node_void or_serial_func loop_children
  do_it_serial_void_fixed config arity zero w datum = none
  do_it_serial_void_fixed config arity (suc f) w datum =
      or_serial_func info.do_serial_func w datum (
        serial_node_void
          (λ d.
            loop_children config (do_it_serial_void_fixed config arity f) (λ i. info.child i d)
              arity)
          w datum)

  unfoldable pub do_it_serial_void_two : Config → ℕ → W → T → Option W
  unfolding serial_node_void or_serial_func two_children
  do_it_serial_void_two config zero w datum = none
  do_it_serial_void_two config (suc f) w datum = or_serial_func info.do_serial_func w datum (
      serial_node_void
        (λ d. two_children config (do_it_serial_void_two config f) (λ i. info.child i d)) w datum)
