-- ===== src/ArrayRecursion.antt =====
-- include/dparallel_recursion/seq_parallel_recursion.h: the sequential recursion of the task skeletons,
-- which collects the results of the children in an array and reduces them in one call of `post`. Fuel
-- bounds the depth; `none` is fuel that ran out.
pub mod Variants
pub mod Total
use dparallel_recursion.Common.{
  ℕ, zero, suc, ◌+◌, Bool, Option, none, some, ◌>>=◌, if◌then◌else◌, List, [], ◌∷◌,
}
use dparallel_recursion.Serial.{loop_up}

-- `num_children` takes a reference, and may change the datum.
pub record ArrayInfo {ℓ} (T : Type ℓ) : Type ℓ where
  pub is_base : T → Bool
  pub num_children : T → T × ℕ
  pub child : ℕ → T → T

pub record ArrayBody {ℓ κ} (T : Type ℓ) (R : Type κ) : Type (ℓ ⊔ κ) where
  pub pre : T → T
  pub pre_rec : T → T
  pub base : T → R
  pub post : T → List R → R

-- With no result, `base` changes the memory `W`.
pub record ArrayVoidBody {ℓ κ} (T : Type ℓ) (W : Type κ) : Type (ℓ ⊔ κ) where
  pub pre : T → T
  pub pre_rec : T → T
  pub base : T → W → W

-- results[i] = do_it_serial(info->child(i, data), body), from `i` on, with `n` rounds left
unfoldable pub results_from {ℓ κ} :
    {T : Type ℓ} {R : Type κ} → (T → Option R) → (ℕ → T) → ℕ → ℕ → Option (List R)
results_from rec child zero i = some []
results_from rec child (suc n) i =
    rec (child i) >>= (λ r. results_from rec child n (i + 1) >>= (λ rs. some (r ∷ rs)))

module _ {ℓ κ} {T : Type ℓ} {R : Type κ} (info : ArrayInfo T) (body : ArrayBody T R) where
  -- One call on one datum; `kids` gives the datum that `post` sees, and the results.
  unfoldable pub array_node : (T → T × Option (List R)) → T → Option R
  array_node kids datum =
      let d = body.pre datum in
      let d' = body.pre_rec d in
      let rest = (kids d').1 >>= (λ rs. some (body.post (kids d').0 rs)) in
      if info.is_base d then some (body.base d) else rest

  -- Arity known at run time (I == 0).
  unfoldable pub array_serial : ℕ → T → Option R
  unfolding array_node results_from
  array_serial zero datum = none
  array_serial (suc f) datum =
      array_node
        (λ d.
          let d' = (info.num_children d).0 in
          let c = (info.num_children d).1 in
          (d', results_from (array_serial f) (λ i. info.child i d') c 0))
        datum

  -- Fixed arity.
  unfoldable pub array_serial_fixed : (arity : ℕ) → ℕ → T → Option R
  unfolding array_node results_from
  array_serial_fixed arity zero datum = none
  array_serial_fixed arity (suc f) datum =
      array_node (λ d. (d, results_from (array_serial_fixed arity f) (λ i. info.child i d) arity 0))
        datum

  -- Arity 2: results[0] and results[1].
  unfoldable pub array_serial_two : ℕ → T → Option R
  unfolding array_node
  array_serial_two zero datum = none
  array_serial_two (suc f) datum =
      array_node
        (λ d. (
          d,
          array_serial_two f (info.child 0 d)
              >>= (λ r. array_serial_two f (info.child 1 d) >>= (λ s. some (r ∷ s ∷ []))),
        ))
        datum

module _ {ℓ κ} {T : Type ℓ} {W : Type κ} (info : ArrayInfo T) (body : ArrayVoidBody T W) where
  unfoldable pub array_node_void : (T → W → Option W) → W → T → Option W
  array_node_void kids w datum =
      let d = body.pre datum in
      let rest = kids (body.pre_rec d) w in if info.is_base d then some (body.base d w) else rest

  unfoldable pub array_serial_void : ℕ → W → T → Option W
  unfolding array_node_void
  array_serial_void zero w datum = none
  array_serial_void (suc f) w datum =
      array_node_void
        (λ d w'.
          let d' = (info.num_children d).0 in
          let c = (info.num_children d).1 in
          loop_up (array_serial_void f) (λ i. info.child i d') c 0 w')
        w datum

  unfoldable pub array_serial_void_fixed : (arity : ℕ) → ℕ → W → T → Option W
  unfolding array_node_void
  array_serial_void_fixed arity zero w datum = none
  array_serial_void_fixed arity (suc f) w datum =
      array_node_void
        (λ d w'. loop_up (array_serial_void_fixed arity f) (λ i. info.child i d) arity 0 w') w datum

  unfoldable pub array_serial_void_two : ℕ → W → T → Option W
  unfolding array_node_void
  array_serial_void_two zero w datum = none
  array_serial_void_two (suc f) w datum =
      array_node_void
        (λ d w'.
          array_serial_void_two f w' (info.child 0 d)
          >>= (λ x. array_serial_void_two f x (info.child 1 d)))
        w datum
