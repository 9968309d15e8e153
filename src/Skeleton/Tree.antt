-- ===== src/Skeleton/Tree.antt =====
-- What a problem means, with no order of execution: the reduction over its tree of subproblems.
use dparallel_recursion.Common.{
  ℕ, zero, suc, ◌<◌, ◌≡◌, ap, true, false, arith, if◌then◌else◌, Bool-cases, inl, inr,
}
use dparallel_recursion.Common.Reduction.{sum_below, sum_below-cong}
use dparallel_recursion.Skeleton.{Info, Body}

-- The problem gets smaller: what makes the recursion end.
pub record IsRanked {ℓ κ} {T : Type ℓ} {R : Type κ} (info : Info T R) (body : Body T R)
    : Type ℓ where
  pub rank : T → ℕ
  pub child-lt :
      (d : T) (i : ℕ)
      → info.is_base (body.pre d) ≡ false
      → i < info.num_children (body.pre_rec (body.pre d))
      → rank (info.child i (body.pre_rec (body.pre d))) < rank d

-- What one node adds by itself, besides its children.
abbrev pub own_value {ℓ κ} : {T : Type ℓ} {R : Type κ} → Body T R → R → T → R
own_value body unit d = if body.process_non_base then body.non_base d else unit

module _ {ℓ κ} {T : Type ℓ} {R : Type κ} (info : Info T R) (body : Body T R) (unit : R) where
  -- `add a b` is the accumulator `a` after `post(b, a)`.
  abbrev pub add : R → R → R
  add a b = body.post b a

  value_within : ℕ → T → R
  value_within zero d = unit
  value_within (suc f) d =
      let rest = add (own_value body unit (body.pre_rec (body.pre d))) (
        sum_below add unit (λ i. value_within f (info.child i (body.pre_rec (body.pre d))))
          (info.num_children (body.pre_rec (body.pre d)))) in
      if info.is_base (body.pre d) then body.base (body.pre d) else rest

  module _ (ranked : IsRanked info body) where
    open ranked use {rank, child-lt}

    value_within-eq :
        (f g : ℕ) (d : T) → rank d < f → rank d < g → value_within f d ≡ value_within g d
    unfolding value_within
    value_within-eq zero g d h k = absurd (omega arith)
    value_within-eq (suc f) zero d h k = absurd (omega arith)
    value_within-eq (suc f) (suc g) d h k = elim (Bool-cases (info.is_base (body.pre d))) [
      | inl e ↦ rw e
      | inr e ↦ rw e (
          ap (add (own_value body unit (body.pre_rec (body.pre d)))) (
            sum_below-cong add unit _ _ _ (λ i lt.
              let smaller = child-lt d i e lt in
              value_within-eq f g _ (omega arith) (omega arith))))
    ]

    -- The reduction over the whole tree of `d`.
    pub value : T → R
    value d = value_within (suc (rank d)) d

    pub value-base : (d : T) → info.is_base (body.pre d) ≡ true → value d ≡ body.base (body.pre d)
    unfolding value value_within
    value-base d e = rw e

    pub value-node :
        (d : T)
        → info.is_base (body.pre d) ≡ false
        → value d
          ≡ add (own_value body unit (body.pre_rec (body.pre d))) (
              sum_below add unit
                (λ i. value (info.child i (body.pre_rec (body.pre d))))
                (info.num_children (body.pre_rec (body.pre d))))
    unfolding value value_within
    value-node d e = rw e (
        ap (add (own_value body unit (body.pre_rec (body.pre d)))) (
          sum_below-cong add unit _ _ _ (λ i lt.
            let smaller = child-lt d i e lt in
            value_within-eq (rank d) (suc (rank (info.child i (body.pre_rec (body.pre d))))) _
              (omega arith) (omega arith))))
