-- ===== src/Common/Reduction.antt =====
-- Reductions in any order: sums over a commutative monoid, of a family and of a list.
use mathlib.Core.Path.{◌≡◌, refl, sym, ap, ap₂, ◌∙◌, ◌≡⟨◌⟩◌, ◌∎}
use mathlib.Core.Logic.{◌≢◌}
use mathlib.Core.List.{List, [], ◌∷◌, ◌++◌}
use Prim.Native.Nat.{ℕ, zero, suc, ◌<◌}
use native.Mathlib.Omega.{arith}
use native.Mathlib.Decide.{ℕ_discrete}

pub record IsReduction {κ} {R : Type κ} (op : R → R → R) (unit : R) : Type κ where
  pub assoc : (a b c : R) → op (op a b) c ≡ op a (op b c)
  pub comm : (a b : R) → op a b ≡ op b a
  pub identity : (a : R) → op a unit ≡ a

module _ {κ} {R : Type κ} (op : R → R → R) (unit : R) where
  unfoldable pub sum_below : (ℕ → R) → ℕ → R
  sum_below g zero = unit
  sum_below g (suc n) = op (sum_below g n) (g n)

  unfoldable pub sum_list {ℓ} : {A : Type ℓ} → (A → R) → List A → R
  sum_list g [] = unit
  sum_list g (x ∷ xs) = op (g x) (sum_list g xs)

  pub sum_below-cong :
      (g h : ℕ → R) (n : ℕ) → ((k : ℕ) → k < n → g k ≡ h k) → sum_below g n ≡ sum_below h n
  unfolding sum_below
  sum_below-cong g h zero e = refl
  sum_below-cong g h (suc n) e =
      ap₂ op (sum_below-cong g h n (λ k lt. e k (omega arith))) (e n (omega arith))

  module _ (law : IsReduction op unit) where
    open law use {assoc, comm, identity}

    pub identity_left : (a : R) → op unit a ≡ a
    identity_left a = comm unit a ∙ identity a

    pub swap_right : (a b c : R) → op (op a b) c ≡ op (op a c) b
    swap_right a b c = assoc a b c ∙ ap (op a) (comm b c) ∙ sym (assoc a c b)

    -- One member of the family grows by `x`.
    pub sum_below-grow :
        (g h : ℕ → R) (n i : ℕ) (x : R)
        → i < n
        → ((k : ℕ) → k ≢ i → h k ≡ g k)
        → h i ≡ op (g i) x
        → sum_below h n ≡ op (sum_below g n) x
    unfolding sum_below
    sum_below-grow g h zero i x lt same grown = absurd (omega arith)
    sum_below-grow g h (suc n) i x lt same grown = elim (ℕ_discrete n i) [
      | yes e ↦
          op (sum_below h n) (h n)
          ≡⟨ ap₂ op (sum_below-cong h g n (λ k k_lt. same k (omega arith))) (rw (← e) at grown) ⟩
            op (sum_below g n) (op (g n) x)
          ≡⟨ sym (assoc (sum_below g n) (g n) x) ⟩ op (op (sum_below g n) (g n)) x ∎
      | no ne ↦
          op (sum_below h n) (h n)
          ≡⟨ ap₂ op (sum_below-grow g h n i x (omega arith) same grown) (same n ne) ⟩
            op (op (sum_below g n) x) (g n)
          ≡⟨ swap_right (sum_below g n) x (g n) ⟩ op (op (sum_below g n) (g n)) x ∎
    ]

    pub sum_list-append {ℓ} :
        {A : Type ℓ} (g : A → R) (xs ys : List A)
        → sum_list g (xs ++ ys) ≡ op (sum_list g xs) (sum_list g ys)
    unfolding sum_list
    sum_list-append g [] ys = sym (identity_left (sum_list g ys))
    sum_list-append g (x ∷ xs) ys =
        ap (op (g x)) (sum_list-append g xs ys) ∙ sym (assoc (g x) (sum_list g xs) (sum_list g ys))

    pub sum_list-one {ℓ} : {A : Type ℓ} (g : A → R) (x : A) → sum_list g (x ∷ []) ≡ g x
    unfolding sum_list
    sum_list-one g x = identity (g x)
