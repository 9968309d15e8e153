-- ===== src/Common/Lists.antt =====
-- Lists measured by native numbers, runs of an indexed store as lists, and the bind of `Option`.
use Prim.Native.Nat.{ℕ, zero, suc, ◌+◌, ◌≤◌, ◌<◌}
use mathlib.Core.Path.{◌≡◌, refl, sym, ap, ap₂, ◌∙◌}
use native.Mathlib.Nat.{zero-add}
use mathlib.Core.List.{List, [], ◌∷◌, ◌++◌}
use mathlib.Core.Option.{Option, none, some}
use native.Mathlib.Omega.{arith}
use dparallel_recursion.Common.Tests.{◌==◌, if◌then◌else◌}

infixl 5 ◌>>=◌
abbrev pub ◌>>=◌ {ℓ κ} : {A : Type ℓ} {B : Type κ} → Option A → (A → Option B) → Option B
none >>= f = none
some a >>= f = f a

module _ {ℓ} {A : Type ℓ} where
  abbrev pub length : List A → ℕ
  length [] = 0
  length (x ∷ xs) = suc (length xs)

  pub length-append : (xs ys : List A) → length (xs ++ ys) ≡ length xs + length ys
  length-append [] ys = omega arith
  length-append (x ∷ xs) ys = omega (arith, length-append xs ys)

  -- A write to one cell of an indexed store.
  abbrev pub update : (ℕ → A) → ℕ → A → ℕ → A
  update f i a j = if i == j then a else f j

  -- The `n` cells from index `i` on.
  unfoldable pub segment : (ℕ → A) → ℕ → ℕ → List A
  segment f i zero = []
  segment f i (suc n) = f i ∷ segment f (i + 1) n

module _ {ℓ} {A : Type ℓ} where
  pub segment-split :
      (f : ℕ → A) (i m n : ℕ) → segment f i (m + n) ≡ segment f i m ++ segment f (i + m) n
  unfolding segment
  segment-split f i zero n = let e : i + 0 ≡ i = omega arith in rw (e, zero-add)
  segment-split f i (suc m) n =
      let e : suc m + n ≡ suc (m + n) = omega arith in
      let e' : i + suc m ≡ i + 1 + m = omega arith in
      rw (e, e') (ap (λ l. f i ∷ l) (segment-split f (i + 1) m n))

  -- Two stores with the same cells in a run.
  pub segment-cong :
      (f g : ℕ → A) (i j n : ℕ)
      → ((k : ℕ) → k < n → f (i + k) ≡ g (j + k))
      → segment f i n ≡ segment g j n
  unfolding segment
  segment-cong f g i j zero h = refl
  segment-cong f g i j (suc n) h =
      let e : i + 0 ≡ i = omega arith in
      let e' : j + 0 ≡ j = omega arith in
      ap₂ ◌∷◌ (ap f (sym e) ∙ h 0 (omega arith) ∙ ap g e') (
        segment-cong f g (i + 1) (j + 1) n (λ k lt.
          let e : i + 1 + k ≡ i + suc k = omega arith in
          let e' : j + 1 + k ≡ j + suc k = omega arith in rw (e, e') (h (suc k) (omega arith))))

  pub segment-last : (f : ℕ → A) (i n : ℕ) → segment f i (n + 1) ≡ segment f i n ++ f (i + n) ∷ []
  unfolding segment
  segment-last f i n = segment-split f i n 1

  -- A write past the end of a run does not change it.
  pub segment-update_above :
      (f : ℕ → A) (i n j : ℕ) (c : A) → i + n ≤ j → segment (update f j c) i n ≡ segment f i n
  segment-update_above f i n j c h = segment-cong (update f j c) f i i n (λ k lt. ground arith)

  pub segment-update_below :
      (f : ℕ → A) (i n j : ℕ) (c : A) → j < i → segment (update f j c) i n ≡ segment f i n
  segment-update_below f i n j c h = segment-cong (update f j c) f i i n (λ k lt. ground arith)

  pub length-segment : (f : ℕ → A) (i n : ℕ) → length (segment f i n) ≡ n
  unfolding segment
  length-segment f i zero = refl
  length-segment f i (suc n) = ap suc (length-segment f (i + 1) n)

-- Inversion of a bind that gives a result.
pub >>=-eq-some {ℓ κ} :
    {A : Type ℓ} {B : Type κ} (m : Option A) (f : A → Option B) {b : B}
    → (m >>= f) ≡ some b
    → (a : A) × (m ≡ some a) × (f a ≡ some b)
>>=-eq-some none f e = cc
>>=-eq-some (some a) f e = (a, refl, e)

module _ {ℓ} {A : Type ℓ} where
  drop_last : List A → List A
  drop_last [] = []
  drop_last (x ∷ []) = []
  drop_last (x ∷ y ∷ xs) = x ∷ drop_last (y ∷ xs)

  drop_last-append : (xs : List A) (a : A) → drop_last (xs ++ a ∷ []) ≡ xs
  unfolding drop_last
  drop_last-append [] a = refl
  drop_last-append (x ∷ []) a = refl
  drop_last-append (x ∷ y ∷ xs) a = ap (λ l. x ∷ l) (drop_last-append (y ∷ xs) a)

  -- Two lists that end in one element each agree before it.
  pub append_last_inj : (xs ys : List A) (a b : A) → xs ++ a ∷ [] ≡ ys ++ b ∷ [] → xs ≡ ys
  append_last_inj xs ys a b e = sym (drop_last-append xs a) ∙ ap drop_last e ∙ drop_last-append ys b
