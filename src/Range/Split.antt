-- ===== src/Range/Split.antt =====
-- `ExclusiveRangeInfo` divides a range into its tasks: they follow one another and cover the range.
use dparallel_recursion.Common.{
  ℕ, zero, suc, ◌+◌, ◌-◌, ◌/◌, ◌%◌, ◌≤◌, ◌<◌, ◌≡◌, refl, ap, ap₂, arith, ltb, leb, ◌==◌, lt→ltb,
  leb→le, leb→lt, ==_iff, if◌then◌else◌, Bool-cases, inl, inr,
}
use dparallel_recursion.SRange.Cut.{cut, cut-zero, cut-suc, cut-all, cut-below, cut-above}
use dparallel_recursion.Range.{
  Range, exclusive_size, exclusive_max_chunk, exclusive_range_info, sub_child,
}

-- Where the task `i` starts.
abbrev pub bound : ℕ → Range → ℕ → ℕ
bound n r i = r.start + cut ((r.end - r.start) / n) ((r.end - r.start) % n) i

pub bound-all : (n : ℕ) (r : Range) → 0 < n → r.start ≤ r.end → bound n r n ≡ r.end
bound-all n r pos le = omega (arith, cut-all (r.end - r.start) n pos)

pub bound-zero : (n : ℕ) (r : Range) → bound n r 0 ≡ r.start
bound-zero n r = omega (arith, cut-zero ((r.end - r.start) / n) ((r.end - r.start) % n))

pub bound-le : (n i : ℕ) (r : Range) → bound n r i ≤ bound n r (i + 1)
bound-le n i r = omega (arith, cut-suc ((r.end - r.start) / n) ((r.end - r.start) % n) i)

bound-most : (n j : ℕ) (r : Range) (i : ℕ) → bound n r i ≤ bound n r (i + j)
bound-most n zero r i = let e : i + 0 ≡ i = omega arith in rw e (omega arith)
bound-most n (suc j) r i =
    let e : i + suc j ≡ i + j + 1 = omega arith in
    rw e (omega (arith, bound-most n j r i, bound-le n (i + j) r))

pub bound-below : (n i : ℕ) (r : Range) → 0 < n → r.start ≤ r.end → i ≤ n → bound n r i ≤ r.end
bound-below n i r pos le i_le =
    let e : i + (n - i) ≡ n = omega arith in
    omega (arith, bound-most n (n - i) r i, ap (bound n r) e, bound-all n r pos le)

abbrev between : ℕ → ℕ → Range
between a b = record { start = a; end = b; nchildren = 0 }

capped : (e x y : ℕ) → x ≡ y → y ≤ e → (if ltb x e then x else e) ≡ y
capped e x y same le = ground arith

sub_child-cut :
    (q m i : ℕ) (r : Range)
    → r.start + cut q m (i + 1) ≤ r.end
    → sub_child i r (q + (if m == 0 then 0 else 1)) m
      ≡ between (r.start + cut q m i) (r.start + cut q m (i + 1))
unfolding sub_child
sub_child-cut q m i r fits = elim (Bool-cases (m == 0)) [
  | inl e ↦
      let none_left : m ≡ 0 = (==_iff m 0).0 e in
      let here = cut-above q m i (omega arith) in
      let next = cut-above q m (i + 1) (omega arith) in
      rw e (
        ap₂ between (omega (arith, here, none_left))
          (capped r.end _ _ (omega (arith, next, none_left)) fits))
  | inr e ↦ elim (Bool-cases (leb m i)) [
    | inl e' ↦
        let le = leb→le m i e' in
        let here = cut-above q m i le in
        let next = cut-above q m (i + 1) (omega arith) in
        rw (e, e')
          (ap₂ between (omega (arith, here, le))
            (capped r.end _ _ (omega (arith, next, here, le)) fits))
    | inr e' ↦
        let lt = leb→lt m i e' in
        let here = cut-below q m i lt in
        let next = cut-suc q m i in
        let one_more : (if ltb i m then q + 1 else q) ≡ q + 1 = rw (lt→ltb i m lt) refl in
        rw (e, e')
          (ap₂ between (omega (arith, here))
            (capped r.end _ _ (omega (arith, next, here, one_more)) fits))
  ]
]

-- The task `i` of a range, divided into tasks.
abbrev pub task : ℕ → ℕ → Range → Range
task n i r =
    sub_child i r (exclusive_range_info r n).base_size (exclusive_range_info r n).task_part_point

-- For a task below the number of tasks, and a range that starts at or before its end: the task runs
-- from its bound to the next, where the bounds cut the range into tasks of the quotient of its size,
-- one more for as many of the first as the remainder says; `std::min` never cuts it short.
pub task-bounds :
    (n i : ℕ) (r : Range)
    → i < n
    → r.start ≤ r.end
    → task n i r ≡ record { start = bound n r i; end = bound n r (i + 1); nchildren = 0 }
unfolding exclusive_range_info exclusive_max_chunk exclusive_size
task-bounds n i r lt le =
    sub_child-cut ((r.end - r.start) / n) ((r.end - r.start) % n) i r
      (bound-below n (i + 1) r (omega arith) le (omega arith))
