-- ===== src/Serial/Total.antt =====
-- The recursion returns, with the reduction over the whole tree.
use native.Mathlib.Nat.{zero-add}
use dparallel_recursion.Common.{
  ℕ, zero, suc, ◌+◌, ◌<◌, ◌≡◌, refl, sym, ap, ◌∙◌, false, Option, none, some, arith, if◌then◌else◌,
  Bool-cases, inl, inr,
}
use dparallel_recursion.Common.Reduction.{IsReduction, sum_below, swap_right}
use dparallel_recursion.Skeleton.{Info, Body, Config}
use dparallel_recursion.Skeleton.Tree.{IsRanked, add, own_value, value, value-base, value-node}
use dparallel_recursion.Serial.{
  loop_up, loop_down, loop_children, serial_node, or_serial_func, do_it_serial,
}

module _ {ℓ κ} {T : Type ℓ} {R : Type κ} (op : R → R → R) (unit : R)
    (law : IsReduction op unit) where
  open law use {assoc, comm, identity}

  module _ (rec : R → T → Option R) (child : ℕ → T) (v : ℕ → R) where
    loop_up-sum :
        (n i : ℕ) (r : R)
        → ((k : ℕ) (s : R) → k < i + n → rec s (child k) ≡ some (op s (v k)))
        → loop_up rec child n i (op r (sum_below op unit v i))
          ≡ some (op r (sum_below op unit v (i + n)))
    unfolding loop_up sum_below
    loop_up-sum zero i r h = let e : i + 0 ≡ i = omega arith in rw e
    loop_up-sum (suc n) i r h =
        let e : i + suc n ≡ suc i + n = omega arith in
        let e' : i + 1 ≡ suc i = omega arith in
        rw
          (
            h i (op r (sum_below op unit v i)) (omega arith),
            e,
            e',
            assoc r (sum_below op unit v i) (v i),
          )
          (loop_up-sum n (suc i) r (λ k s lt. h k s (omega arith)))

    loop_down-sum :
        (n : ℕ) (r : R)
        → ((k : ℕ) (s : R) → k < n → rec s (child k) ≡ some (op s (v k)))
        → loop_down rec child n r ≡ some (op r (sum_below op unit v n))
    unfolding loop_down sum_below
    loop_down-sum zero r h = ap some (sym (identity r))
    loop_down-sum (suc n) r h = rw (h n r (omega arith)) (
        loop_down-sum n (op r (v n)) (λ k s lt. h k s (omega arith))
        ∙ ap some (
            swap_right op unit law r (v n) (sum_below op unit v n)
            ∙ assoc r (sum_below op unit v n) (v n)))

    pub loop_children-sum :
        (config : Config) (n : ℕ) (r : R)
        → ((k : ℕ) (s : R) → k < n → rec s (child k) ≡ some (op s (v k)))
        → loop_children config rec child n r ≡ some (op r (sum_below op unit v n))
    unfolding loop_children sum_below
    loop_children-sum config n r h = elim (Bool-cases config.force_r_to_l) [
      | inl e ↦ rw e (loop_down-sum n r h)
      | inr e ↦ rw e (
          ap (loop_up rec child n 0) (sym (identity r))
          ∙ loop_up-sum n 0 r (λ k s lt. h k s (omega arith))
          ∙ ap (λ m. some (op r (sum_below op unit v m))) (zero-add n))
    ]

pub or_serial_func-value {ℓ κ} :
    {T : Type ℓ} {R : Type κ} (o : Option (T → R → R)) (x r : R) (d : T) (rest : Option R)
    → ((g : T → R → R) → o ≡ some g → g d r ≡ x)
    → rest ≡ some x
    → or_serial_func o r d rest ≡ some x
unfolding or_serial_func
or_serial_func-value none x r d rest h e = e
or_serial_func-value (some g) x r d rest h e = ap some (h g refl)

module _ {ℓ κ} {T : Type ℓ} {R : Type κ} (info : Info T R) (body : Body T R) (unit : R)
    (law : IsReduction (add info body unit) unit) (ranked : IsRanked info body) where
  open law use {assoc, comm, identity}
  open ranked use {rank, child-lt}

  abbrev v : T → R
  v = value info body unit ranked

  -- A `do_serial_func` of the user's class adds what the recursion would.
  abbrev pub SerialFuncAgrees : Type (ℓ ⊔ κ)
  SerialFuncAgrees =
      (g : T → R → R) (d : T) (r : R) → info.do_serial_func ≡ some g → g d r ≡ body.post (v d) r

  -- What a node adds to the accumulator before its children.
  pub own-add :
      (r : R) (d : T)
      → (if body.process_non_base then body.post (body.non_base d) r else r)
        ≡ body.post (own_value body unit d) r
  own-add r d = elim (Bool-cases body.process_non_base) [
    | inl e ↦ rw e
    | inr e ↦ rw e (sym (identity r))
  ]

  serial_node-value :
      (children : T → R → Option R) (d : T) (r : R)
      → ((s : R)
          → info.is_base (body.pre d) ≡ false
          → children (body.pre_rec (body.pre d)) s
            ≡ some (
                body.post
                  (sum_below
                    (add info body unit)
                    unit
                    (λ i. v (info.child i (body.pre_rec (body.pre d))))
                    (info.num_children (body.pre_rec (body.pre d))))
                  s))
      → serial_node info body children r d ≡ some (body.post (v d) r)
  unfolding serial_node
  serial_node-value children d r h = elim (Bool-cases (info.is_base (body.pre d))) [
    | inl e ↦ rw (e, value-base info body unit ranked d e)
    | inr e ↦
        rw (e, own-add r (body.pre_rec (body.pre d)), h _ e, value-node info body unit ranked d e)
          (ap some (assoc r (own_value body unit (body.pre_rec (body.pre d))) _))
  ]

  -- For a reduction by a commutative monoid over a problem that gets smaller, with fuel above the
  -- rank of the datum, the recursion returns: it adds the reduction over the whole tree of the datum
  -- to the accumulator.
  pub do_it_serial-value :
      SerialFuncAgrees
      → (config : Config) (f : ℕ) (r : R) (d : T) → rank d < f
      → do_it_serial info body config f r d ≡ some (body.post (v d) r)
  unfolding do_it_serial or_serial_func
  do_it_serial-value agrees config zero r d h = absurd (omega arith)
  do_it_serial-value agrees config (suc f) r d h =
      or_serial_func-value info.do_serial_func (body.post (v d) r) r d _ (λ g e. agrees g d r e)
        (serial_node-value
          (λ x.
            loop_children config (do_it_serial info body config f) (λ i. info.child i x)
              (info.num_children x))
          d r
          (λ s inner.
            loop_children-sum (add info body unit) unit law (do_it_serial info body config f)
              (λ i. info.child i (body.pre_rec (body.pre d)))
              (λ i. v (info.child i (body.pre_rec (body.pre d)))) config _ s
              (λ k t lt.
                let smaller = child-lt d k inner lt in
                do_it_serial-value agrees config f t _ (omega arith))))
