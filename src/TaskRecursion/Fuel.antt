-- ===== src/TaskRecursion/Fuel.antt =====
-- include/dparallel_recursion/seq_parallel_recursion.h: with more fuel, the recursion returns the same.
use dparallel_recursion.Common.{
  ℕ, zero, suc, ◌+◌, ◌≡◌, sym, subst, ◌∙◌, arith, Option, none, some, some_injective, List,
  Bool-cases, Option-cases, inl, inr,
}
use dparallel_recursion.ArrayRecursion.{
  ArrayInfo, ArrayBody, results_from, array_node, array_serial,
}

module _ {ℓ κ} {T : Type ℓ} {R : Type κ} where
  pub results_from-more :
      (rec rec' : T → Option R) (child : ℕ → T) (n i : ℕ) (rs : List R)
      → ((d : T) (r : R) → rec d ≡ some r → rec' d ≡ some r)
      → results_from rec child n i ≡ some rs
      → results_from rec' child n i ≡ some rs
  unfolding results_from
  results_from-more rec rec' child zero i rs more e = e
  results_from-more rec rec' child (suc n) i rs more e = elim (Option-cases (rec (child i))) [
    | inl stop ↦ let clash : none ≡ some rs = rw stop at e in cc
    | inr (r, first) ↦ elim (Option-cases (results_from rec child n (i + 1))) [
      | inl stop ↦ let clash : none ≡ some rs = rw (first, stop) at e in cc
      | inr (qs, rest) ↦
          rw (more (child i) r first, results_from-more rec rec' child n (i + 1) qs more rest)
            (rw (first, rest) at e)
    ]
  ]

module _ {ℓ κ} {T : Type ℓ} {R : Type κ} (info : ArrayInfo T) (body : ArrayBody T R) where
  pub array_serial-suc :
      (f : ℕ) (d : T) (r : R)
      → array_serial info body f d ≡ some r
      → array_serial info body (suc f) d ≡ some r
  unfolding array_serial array_node
  array_serial-suc zero d r e = cc
  array_serial-suc (suc f) d r e = elim (Bool-cases (info.is_base (body.pre d))) [
    | inl base ↦ rw base (rw base at e)
    | inr node ↦
        let d' = info.num_children (body.pre_rec (body.pre d)) in
        elim (Option-cases
          (results_from (array_serial info body f) (λ i. info.child i d'.0) d'.1 0)) [
            | inl stop ↦ let clash : none ≡ some r = rw (node, stop) at e in cc
            | inr (rs, all) ↦
                rw
                  (
                    node,
                    results_from-more (array_serial info body f) (array_serial info body (suc f))
                        (λ i. info.child i d'.0) d'.1 0 rs (array_serial-suc f) all,
                  )
                  (rw (node, all) at e)
          ]
  ]

  array_serial-add :
      (k f : ℕ) (d : T) (r : R)
      → array_serial info body f d ≡ some r
      → array_serial info body (k + f) d ≡ some r
  array_serial-add zero f d r e =
      let same : f ≡ 0 + f = omega arith in subst (λ g. array_serial info body g d ≡ some r) same e
  array_serial-add (suc k) f d r e =
      let same : suc (k + f) ≡ suc k + f = omega arith in
      subst (λ g. array_serial info body g d ≡ some r) same
        (array_serial-suc (k + f) d r (array_serial-add k f d r e))

  -- Whatever the fuel, the results of the children are the same.
  pub results_from_unique :
      (f g : ℕ) (child : ℕ → T) (n i : ℕ) (rs qs : List R)
      → results_from (array_serial info body f) child n i ≡ some rs
      → results_from (array_serial info body g) child n i ≡ some qs
      → rs ≡ qs
  results_from_unique f g child n i rs qs e e' =
      let swap : g + f ≡ f + g = omega arith in
      let both =
        results_from-more (array_serial info body f) (array_serial info body (f + g)) child n i rs
          (λ d r s.
            subst (λ h. array_serial info body h d ≡ some r) swap (array_serial-add g f d r s))
          e in
      let both' =
        results_from-more (array_serial info body g) (array_serial info body (f + g)) child n i qs
          (λ d r s. array_serial-add f g d r s) e' in
      some_injective rs qs (sym both ∙ both')
