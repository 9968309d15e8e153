-- ===== src/ArrayRecursion/Total.antt =====
-- Where the recursion returns on every child, the array of results is filled in their order.
use dparallel_recursion.Common.{ℕ, zero, suc, ◌+◌, ◌<◌, ◌≡◌, refl, Option, some, arith, segment}
use dparallel_recursion.ArrayRecursion.{results_from}

pub results_from-all {ℓ κ} :
    {T : Type ℓ} {R : Type κ} (rec : T → Option R) (child : ℕ → T) (v : ℕ → R) (n i : ℕ)
    → ((k : ℕ) → k < i + n → rec (child k) ≡ some (v k))
    → results_from rec child n i ≡ some (segment v i n)
unfolding results_from segment
results_from-all rec child v zero i h = refl
results_from-all rec child v (suc n) i h =
    let e : i + 1 ≡ suc i = omega arith in
    rw (h i (omega arith), e, results_from-all rec child v n (suc i) (λ k lt. h k (omega arith)))
      refl
