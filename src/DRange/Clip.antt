-- ===== src/DRange/Clip.antt =====
-- Tasks whose end is cut by std::min, and the quotients of sizes.
use native.Mathlib.Nat.{mul-add-div, mul-add-mod_self_left, div-eq_of_lt, mod-eq_of_lt}
use dparallel_recursion.Common.{
  ℕ, zero, suc, ◌+◌, ◌-◌, ◌*◌, ◌/◌, ◌%◌, ◌≤◌, ◌<◌, ◌≡◌, refl, ap, ap₂, ◌∙◌, arith, false, ltb, leb,
  ◌==◌, lt→ltb, leb→le, leb→lt, ==_iff, if◌then◌else◌, Bool-cases, inl, inr,
}
use dparallel_recursion.SRange.Cut.{cut, cut-suc, cut-below, cut-above}
use dparallel_recursion.Range.{Range, exclusive_size, exclusive_max_chunk, sub_child}

abbrev pub clipped : ℕ → ℕ → ℕ
clipped e x = if ltb x e then x else e

abbrev pub between : ℕ → ℕ → Range
between a b = record { start = a; end = b; nchildren = 0 }

pub sub_child-clipped :
    (q m i : ℕ) (r : Range)
    → sub_child i r (q + (if m == 0 then 0 else 1)) m
      ≡ between (r.start + cut q m i) (clipped r.end (r.start + cut q m (i + 1)))
unfolding sub_child
sub_child-clipped q m i r = elim (Bool-cases (m == 0)) [
  | inl e ↦
      let none_left : m ≡ 0 = (==_iff m 0).0 e in
      let here = cut-above q m i (omega arith) in
      let next = cut-above q m (i + 1) (omega arith) in
      rw e (
        ap₂ between (omega (arith, here, none_left))
          (ap (clipped r.end) (omega (arith, next, none_left))))
  | inr e ↦ elim (Bool-cases (leb m i)) [
    | inl e' ↦
        let le = leb→le m i e' in
        let here = cut-above q m i le in
        let next = cut-above q m (i + 1) (omega arith) in
        rw (e, e')
          (ap₂ between (omega (arith, here, le))
            (ap (clipped r.end) (omega (arith, next, here, le))))
    | inr e' ↦
        let lt = leb→lt m i e' in
        let here = cut-below q m i lt in
        let next = cut-suc q m i in
        let one_more : (if ltb i m then q + 1 else q) ≡ q + 1 = rw (lt→ltb i m lt) refl in
        rw (e, e')
          (ap₂ between (omega (arith, here))
            (ap (clipped r.end) (omega (arith, next, here, one_more))))
  ]
]

-- Where the task `i` of a part of `size` starts, when the longest part has `longest`.
abbrev pub task_bound : ℕ → ℕ → Range → ℕ → ℕ
task_bound longest n r i = clipped r.end (r.start + cut (longest / n) (longest % n) i)

pub cut-le : (q m i j : ℕ) → cut q m i ≤ cut q m (i + j)
cut-le q m i zero = let e : i + 0 ≡ i = omega arith in rw e (omega arith)
cut-le q m i (suc j) =
    let e : i + suc j ≡ i + j + 1 = omega arith in
    let next = cut-suc q m (i + j) in
    let grown : q ≤ (if ltb (i + j) m then q + 1 else q) = ground arith in
    rw e (omega (arith, cut-le q m i j, next, grown))

pub chunk_of :
    (size n : ℕ)
    → exclusive_max_chunk (record { start = 0; end = size; nchildren = 0 }) n
      ≡ size / n + (if size % n == 0 then 0 else 1)
unfolding exclusive_max_chunk exclusive_size
chunk_of size n = let e : size - 0 ≡ size = omega arith in rw e refl

pub differ : (a b : ℕ) → a < b → (a == b) ≡ false
differ a b lt = ground arith

pub clipped-le : (e x : ℕ) → x ≤ e → clipped e x ≡ x
clipped-le e x le = ground arith

pub clipped-ge : (e x : ℕ) → e ≤ x → clipped e x ≡ e
clipped-ge e x le = ground arith

pub not_less : (k : ℕ) → 1 ≤ k → ltb k 1 ≡ false
not_less k le = ground arith

pub too_many : (n : ℕ) → 3 ≤ n → leb n (1 + 1) ≡ false
too_many n le = ground arith

pub end-past : (p : Range) (size : ℕ) → exclusive_size p ≤ size → p.end ≤ p.start + size
unfolding exclusive_size
end-past p size le = omega (arith, le)

-- One element more than a number of equal parts.
pub one_over : (n t : ℕ) → 2 ≤ n → ((n * t + 1) / n ≡ t) × ((n * t + 1) % n ≡ 1)
one_over n t two = (
  mul-add-div (omega (arith, two)) t 1
      ∙ ap (λ z. t + z) (div-eq_of_lt {n = 1} {m = n} two)
      ∙ omega arith,
  mul-add-mod_self_left n t 1 ∙ mod-eq_of_lt {n = 1} {m = n} two,
)

pub shorter : (q m size : ℕ) → 2 * q + m ≤ size → 1 ≤ q → q + (if m == 0 then 0 else 1) < size
shorter q m size twice pos = ground arith
