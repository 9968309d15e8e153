-- ===== src/Threads/Barrier.antt =====
-- The barrier detects termination: `cb_done` is set only when no work is left anywhere.
use dparallel_recursion.Common.{
  ℕ, zero, suc, ◌+◌, ◌≤◌, ◌<◌, ◌≡◌, refl, sym, ap, subst, true, false, arith, ◌==◌, update,
  ℕ_discrete,
}
use dparallel_recursion.Threads.Inv.{idle, IsEmpty}
use dparallel_recursion.Threads.Balance.{is_starting}
use dparallel_recursion.Threads.{Pc, starting, arriving, completing, waiting, leaving, System}

-- Between the increment and the decrement of `cb_count`.
abbrev pub inside : Pc → ℕ
inside arriving = 1
inside completing = 1
inside waiting = 1
inside leaving = 1
inside _ = 0

pub count_inside : (ℕ → Pc) → ℕ → ℕ
count_inside pcs zero = 0
count_inside pcs (suc n) = count_inside pcs n + inside (pcs n)

pub inside-le : (p : Pc) → inside p ≤ 1
inside-le p = ground arith

count_inside-update_above :
    (pcs : ℕ → Pc) (n i : ℕ) (p : Pc) → n ≤ i → count_inside (update pcs i p) n ≡ count_inside pcs n
unfolding count_inside
count_inside-update_above pcs zero i p h = refl
count_inside-update_above pcs (suc n) i p h =
    let miss : (i == n) ≡ false = ground arith in
    rw miss (omega (arith, count_inside-update_above pcs n i p (omega arith)))

pub count_inside-update :
    (pcs : ℕ → Pc) (n i : ℕ) (p : Pc)
    → i < n
    → count_inside (update pcs i p) n + inside (pcs i) ≡ count_inside pcs n + inside p
unfolding count_inside
count_inside-update pcs zero i p h = absurd (omega arith)
count_inside-update pcs (suc n) i p h = elim (ℕ_discrete i n) [
  | yes e ↦
      let hit : (i == n) ≡ true = ground arith in
      rw hit (
        omega
          (arith, count_inside-update_above pcs n i p (omega arith), ap (λ j. inside (pcs j)) e))
  | no ne ↦
      let miss : (i == n) ≡ false = ground arith in
      rw miss (omega (arith, count_inside-update pcs n i p (omega arith)))
]

count_inside-le : (pcs : ℕ → Pc) (n : ℕ) → count_inside pcs n ≤ n
unfolding count_inside
count_inside-le pcs zero = omega arith
count_inside-le pcs (suc n) = omega (arith, inside-le (pcs n), count_inside-le pcs n)

pub all-inside :
    (pcs : ℕ → Pc) (n : ℕ) → count_inside pcs n ≡ n → (i : ℕ) → i < n → inside (pcs i) ≡ 1
unfolding count_inside
all-inside pcs zero e i h = absurd (omega arith)
all-inside pcs (suc n) e i h = elim (ℕ_discrete i n) [
  | yes same ↦
      subst (λ j. inside (pcs j) ≡ 1) (sym same)
        (omega (arith, inside-le (pcs n), count_inside-le pcs n))
  | no ne ↦
      all-inside pcs n (omega (arith, inside-le (pcs n), count_inside-le pcs n)) i (omega arith)
]

pub count-all :
    (pcs : ℕ → Pc) (n : ℕ) → ((i : ℕ) → i < n → inside (pcs i) ≡ 1) → count_inside pcs n ≡ n
unfolding count_inside
count-all pcs zero h = refl
count-all pcs (suc n) h =
    omega (arith, h n (omega arith), count-all pcs n (λ i lt. h i (omega arith)))

pub inside-idle : (p : Pc) → inside p ≡ 1 → (idle p ≡ true) × (is_starting p ≡ false)
inside-idle p e = ground arith

-- No element on any stack, and no thread that has still to start.
abbrev pub IsDry {ℓ κ} : {T : Type ℓ} {R : Type κ} → ℕ → System T R → Type 0
IsDry n s = (i : ℕ) → i < n → IsEmpty (s.steal_stack i) × (is_starting (s.pc i) ≡ false)

pub inside-le_count : (pcs : ℕ → Pc) (n i : ℕ) → i < n → inside (pcs i) ≤ count_inside pcs n
unfolding count_inside
inside-le_count pcs zero i h = absurd (omega arith)
inside-le_count pcs (suc n) i h = elim (ℕ_discrete i n) [
  | yes same ↦
      subst (λ j. inside (pcs j) ≤ count_inside pcs n + inside (pcs n)) (sym same) (omega arith)
  | no ne ↦ omega (arith, inside-le_count pcs n i (omega arith))
]

pub none-inside : (m : ℕ) → count_inside (λ _. starting) m ≡ 0
unfolding count_inside
none-inside zero = refl
none-inside (suc m) = omega (arith, none-inside m)
