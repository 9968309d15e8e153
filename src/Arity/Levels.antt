-- ===== src/Arity/Levels.antt =====
-- include/dparallel_recursion/Arity.h: the levels for a number of tasks.
use dparallel_recursion.Common.{
  ℕ, zero, suc, ◌+◌, ◌*◌, ◌%◌, ◌^◌, ◌≤◌, ◌<◌, ◌≡◌, refl, sym, ap, subst, ◌∙◌, some, ltb, ltb→lt,
  ltb→ge, ◌==◌, arith, Bool-cases, inl, inr, false, true,
}
use native.Mathlib.Nat.{mul-le-mul_left, mul-lt-mul_of_pos_right, mod-eq_of_lt, pow-suc, pow-zero}
use dparallel_recursion.Arity.{nlevels, levels_for_ntasks}

pow_next : (n i : ℕ) → n ^ (i + 1) ≡ n ^ i * n
pow_next n i = let next : i + 1 ≡ suc i = omega arith in ap (λ k. n ^ k) next ∙ pow-suc n i

nlevels-next :
    (fuel n ntasks t t' i level : ℕ)
    → ltb t ntasks ≡ true
    → t * n % 2 ^ 32 ≡ t'
    → nlevels fuel n ntasks t' (i + 1) ≡ some level
    → nlevels (suc fuel) n ntasks t i ≡ some level
unfolding nlevels
nlevels-next fuel n ntasks t t' i level less same e = rw (less, same) e

nlevels-least :
    (fuel n ntasks i : ℕ)
    → 2 ≤ n
    → ntasks * n ≤ 2 ^ 32
    → 1 ≤ fuel
    → suc ntasks ≤ fuel + n ^ i
    → 1 ≤ n ^ i
    → ((k : ℕ) → k < i → n ^ k < ntasks)
    → (level : ℕ) × (nlevels fuel n ntasks (n ^ i) i ≡ some level)
      × (ntasks ≤ n ^ level)
      × ((k : ℕ) → k < level → n ^ k < ntasks)
unfolding nlevels
nlevels-least zero n ntasks i two small some_fuel enough pos below = absurd (omega arith)
nlevels-least (suc fuel) n ntasks i two small some_fuel enough pos below =
    elim (Bool-cases (ltb (n ^ i) ntasks)) [
      | inr reached ↦ (i, rw reached refl, ltb→ge (n ^ i) ntasks reached, below)
      | inl less ↦
          let lt = ltb→lt (n ^ i) ntasks less in
          let next : n ^ (i + 1) ≡ n ^ i * n = pow_next n i in
          let no_wrap : n ^ i * n % 2 ^ 32 ≡ n ^ (i + 1) =
            mod-eq_of_lt (omega (arith, mul-lt-mul_of_pos_right {k = n} lt (omega arith), small))
            ∙ sym next in
          let grows : suc (n ^ i) ≤ n ^ (i + 1) =
            omega (arith, next, mul-le-mul_left (n ^ i) two, pos) in
          let (level, e, most, below') =
            nlevels-least fuel n ntasks (i + 1) two small (omega (arith, lt, enough))
              (omega (arith, enough, grows)) (omega (arith, grows))
              (λ k k_lt. elim (Bool-cases (ltb k i)) [
                | inl before ↦ below k (ltb→lt k i before)
                | inr after ↦
                    let same : i ≡ k = omega (arith, ltb→ge k i after, k_lt) in
                    subst (λ j. n ^ j < ntasks) same lt
              ]) in
          (
            level,
            nlevels-next fuel n ntasks (n ^ i) (n ^ (i + 1)) i level less no_wrap e,
            most,
            below',
          )
    ]

-- For an arity of at least 2, at least one task, a product of both of at most 2 ^ 32, and fuel for
-- the number of tasks: `LevelsForNTasks` returns the least level at which a full tree has as many
-- nodes as there are tasks.
pub levels_for_ntasks-least :
    (fuel n ntasks : ℕ)
    → 2 ≤ n
    → ntasks * n ≤ 2 ^ 32
    → 1 ≤ ntasks
    → ntasks ≤ fuel
    → (level : ℕ) × (levels_for_ntasks fuel n ntasks ≡ some level)
      × (ntasks ≤ n ^ level)
      × ((k : ℕ) → k < level → n ^ k < ntasks)
unfolding levels_for_ntasks
levels_for_ntasks-least fuel n ntasks two small one enough =
    let no_zero : (n == 0) ≡ false = ground arith in
    let no_one : (n == 1) ≡ false = ground arith in
    rw (no_zero, no_one)
      (subst
        (λ t.
          (level : ℕ) × (nlevels fuel n ntasks t 0 ≡ some level)
          × (ntasks ≤ n ^ level)
          × ((k : ℕ) → k < level → n ^ k < ntasks))
        (pow-zero n)
        (nlevels-least fuel n ntasks 0 two small (omega (arith, one, enough))
          (omega (arith, enough, pow-zero n)) (omega (arith, pow-zero n))
          (λ k lt. absurd (omega arith))))
