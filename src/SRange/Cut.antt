-- ===== src/SRange/Cut.antt =====
-- Where a range of `m` elements is cut into `n` chunks that differ by one element at most.
use native.Mathlib.Nat.{div-add-mod, le-div_iff_mul-le, mod-lt, mul-le-mul_right}
use dparallel_recursion.Common.{
  ℕ, ◌+◌, ◌*◌, ◌/◌, ◌%◌, ◌≤◌, ◌<◌, ◌≡◌, refl, arith, ltb, lt→ltb, if◌then◌else◌, true, false,
  dec_lt,
}

not-ltb : (i r : ℕ) → ¬ (i < r) → ltb i r ≡ false
not-ltb i r ge = ground arith

-- Chunks of `q` elements, the first `r` of them one longer.
unfoldable pub cut : ℕ → ℕ → ℕ → ℕ
cut q r i = i * q + (if ltb i r then i else r)

pub cut-short : (q r i : ℕ) → ltb i r ≡ true → cut q r i ≡ i * q + i
unfolding cut
cut-short q r i e = rw e refl

pub cut-long : (q r i : ℕ) → ltb i r ≡ false → cut q r i ≡ i * q + r
unfolding cut
cut-long q r i e = rw e refl

pub cut-zero : (q r : ℕ) → cut q r 0 ≡ 0
unfolding cut
cut-zero q r = ground arith

pub cut-suc : (q r i : ℕ) → cut q r (i + 1) ≡ cut q r i + (if ltb i r then q + 1 else q)
unfolding cut
cut-suc q r i = elim (dec_lt i r) [
  | yes lt ↦ elim (dec_lt (i + 1) r) [
    | yes lt' ↦ rw (lt→ltb i r lt, lt→ltb (i + 1) r lt') (omega arith)
    | no ge ↦ rw (lt→ltb i r lt, not-ltb (i + 1) r ge) (omega arith)
  ]
  | no ge ↦ rw (not-ltb i r ge, not-ltb (i + 1) r (λ h. ge (omega arith))) (omega arith)
]

pub cut-all : (m n : ℕ) → 0 < n → cut (m / n) (m % n) n ≡ m
unfolding cut
cut-all m n pos =
    let below = mod-lt m pos in rw (not-ltb n (m % n) (λ h. omega arith)) (div-add-mod m n)

pub div-twice : (m n : ℕ) → 2 ≤ n → 2 * (m / n) + m % n ≤ m
div-twice m n two =
    let whole = div-add-mod m n in
    let grow = mul-le-mul_right (m / n) two in omega (arith, whole, grow)

pub div-pos : (m n : ℕ) → 2 ≤ n → n ≤ m → 1 ≤ m / n
div-pos m n two le = (le-div_iff_mul-le (omega arith)).1 (omega arith)

pub cut-below : (q r i : ℕ) → i < r → cut q r i ≡ (q + 1) * i
unfolding cut
cut-below q r i lt = rw (lt→ltb i r lt) (omega arith)

pub cut-above : (q r i : ℕ) → r ≤ i → cut q r i ≡ q * i + r
unfolding cut
cut-above q r i le = rw (not-ltb i r (λ h. omega arith)) (omega arith)
