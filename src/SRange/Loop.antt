-- ===== src/SRange/Loop.antt =====
-- The loop of a base case of psfor_reduce computes the reduction over its iterations.
use dparallel_recursion.Common.{
  ℕ, zero, suc, ◌+◌, ◌-◌, ◌≤◌, ◌≡◌, refl, sym, ap, ◌∙◌, arith, ltb, ltb→lt, Bool-cases, inl, inr,
}
use dparallel_recursion.Common.Reduction.{IsReduction, sum_below, sum_below-cong, identity_left}
use dparallel_recursion.SRange.{loop_from, psr_tmp_func}

module _ {κ} {R : Type κ} (op : R → R → R) (unit : R) (law : IsReduction op unit) where
  open law use {assoc, comm, identity}

  -- A sum is the sum over a first part and the sum over the rest.
  sum_below-split :
      (g : ℕ → R) (m n : ℕ)
      → op (sum_below op unit g m) (sum_below op unit (λ k. g (m + k)) n)
        ≡ sum_below op unit g (m + n)
  unfolding sum_below
  sum_below-split g m zero =
      let e : m + 0 ≡ m = omega arith in rw e (identity (sum_below op unit g m))
  sum_below-split g m (suc n) =
      let e : m + suc n ≡ suc (m + n) = omega arith in
      rw e (
        sym (assoc (sum_below op unit g m) (sum_below op unit (λ k. g (m + k)) n) (g (m + n)))
        ∙ ap (λ x. op x (g (m + n))) (sum_below-split g m n))

  -- The reduction of `f` over the iterations from `a` to `b`, `b` excluded.
  unfoldable pub iterations : (ℕ → R) → ℕ → ℕ → R
  iterations f a b = sum_below op unit (λ k. f (a + k)) (b - a)

  pub iterations-none : (f : ℕ → R) (a : ℕ) → iterations f a a ≡ unit
  unfolding iterations sum_below
  iterations-none f a = let e : a - a ≡ 0 = omega arith in rw e refl

  pub iterations-join :
      (f : ℕ → R) (a b c : ℕ)
      → a ≤ b
      → b ≤ c
      → op (iterations f a b) (iterations f b c) ≡ iterations f a c
  unfolding iterations
  iterations-join f a b c le le' =
      let e : b - a + (c - b) ≡ c - a = omega arith in
      ap (op (sum_below op unit (λ k. f (a + k)) (b - a))) (
        sum_below-cong op unit _ _ (c - b)
          (λ k lt. ap f (let e' : b + k ≡ a + (b - a + k) = omega arith in e')))
      ∙ sum_below-split (λ k. f (a + k)) (b - a) (c - b)
      ∙ ap (sum_below op unit (λ k. f (a + k))) e

  mono_above : (g : ℕ → ℕ) → ((i : ℕ) → g i ≤ g (i + 1)) → (j : ℕ) → g 0 ≤ g j
  mono_above g mono zero = omega arith
  mono_above g mono (suc j) =
      let e : j + 1 ≡ suc j = omega arith in omega (arith, mono_above g mono j, mono j, ap g e)

  -- Stretches of iterations that follow one another add up to all of them.
  pub iterations-sum :
      (f : ℕ → R) (g : ℕ → ℕ)
      → ((i : ℕ) → g i ≤ g (i + 1))
      → (j : ℕ)
      → sum_below op unit (λ i. iterations f (g i) (g (i + 1))) j ≡ iterations f (g 0) (g j)
  unfolding sum_below
  iterations-sum f g mono zero = sym (iterations-none f (g 0))
  iterations-sum f g mono (suc j) =
      let e : j + 1 ≡ suc j = omega arith in
      ap (λ x. op x (iterations f (g j) (g (j + 1)))) (iterations-sum f g mono j)
      ∙ iterations-join f (g 0) (g j) (g (j + 1)) (mono_above g mono j) (mono j)
      ∙ ap (λ i. iterations f (g 0) (g i)) e

  loop_from-sum :
      (f : ℕ → R) (a n i : ℕ)
      → loop_from op f (sum_below op unit (λ k. f (a + k)) i) (a + i) n
        ≡ sum_below op unit (λ k. f (a + k)) (i + n)
  unfolding loop_from sum_below
  loop_from-sum f a zero i = let e : i + 0 ≡ i = omega arith in rw e refl
  loop_from-sum f a (suc n) i =
      let e : i + suc n ≡ suc i + n = omega arith in
      let e' : a + i + 1 ≡ a + suc i = omega arith in rw (e, e') (loop_from-sum f a n (suc i))

  -- For a commutative monoid, the loop of a base case returns the reduction over its iterations;
  -- with no iteration it returns the unit.
  pub psr_tmp_func-iterations :
      (f : ℕ → R) (a b : ℕ) → psr_tmp_func op f unit a b ≡ iterations f a b
  unfolding psr_tmp_func iterations sum_below
  psr_tmp_func-iterations f a b = elim (Bool-cases (ltb a b)) [
    | inl e ↦
        let lt = ltb→lt a b e in
        let one : a + 0 ≡ a = omega arith in
        let all : 1 + (b - (a + 1)) ≡ b - a = omega arith in
        rw e (
          ap (λ x. loop_from op f x (a + 1) (b - (a + 1)))
            (ap f (sym one) ∙ sym (identity_left op unit law (f (a + 0))))
          ∙ loop_from-sum f a (b - (a + 1)) 1
          ∙ ap (sum_below op unit (λ k. f (a + k))) all)
    | inr e ↦ let none_left : b - a ≡ 0 = ground arith in rw (e, none_left) refl
  ]
