-- ===== src/Range/Inclusive.antt =====
-- `InclusiveRangeInfo` divides a range as `ExclusiveRangeInfo` divides the same elements.
use native.Mathlib.Nat.{le-div_iff_mul-le}
use dparallel_recursion.Common.{
  ℕ, ◌+◌, ◌-◌, ◌*◌, ◌/◌, ◌≤◌, ◌<◌, ◌≡◌, refl, ap, ◌∙◌, ◌≢◌, arith, ltb, leb, ◌==◌, if◌then◌else◌,
  Bool-cases, inl, inr,
}
use dparallel_recursion.Range.{
  Range, exclusive_size, exclusive_max_chunk, exclusive_range_info, sub_child, inclusive_size,
  inclusive_max_chunk, inclusive_range_info, inclusive_sub_child,
}

-- The range without its end, over the same elements.
abbrev pub opened : Range → Range
opened r = record r { end = r.end + 1 }

-- The range with its end, over the same elements.
abbrev pub closed : Range → Range
closed r = record r { end = r.end - 1 }

pub info-opened :
    (n : ℕ) (r : Range)
    → r.start ≤ r.end
    → inclusive_range_info r n ≡ exclusive_range_info (opened r) n
unfolding inclusive_range_info inclusive_max_chunk inclusive_size exclusive_range_info
    exclusive_max_chunk exclusive_size
info-opened n r le =
    let same : r.end - r.start + 1 ≡ r.end + 1 - r.start = omega arith in rw same refl

capped_less :
    (e x : ℕ)
    → 0 < x
    → (if ltb (x - 1) e then x - 1 else e) ≡ (if ltb x (e + 1) then x else e + 1) - 1
capped_less e x pos = ground arith

sub_child-closed :
    (i base part : ℕ) (r : Range)
    → 0 < base
    → (part ≢ 0 → 1 < base)
    → inclusive_sub_child i r base part ≡ closed (sub_child i (opened r) base part)
unfolding inclusive_sub_child sub_child
sub_child-closed i base part r pos more = elim (Bool-cases (part == 0)) [
  | inl e ↦ rw e (
      ap (λ x. record { start = r.start + base * i; end = x; nchildren = 0 })
        (capped_less r.end (r.start + base * i + base) (omega arith)))
  | inr e ↦
      let big : 1 < base = more (ground arith) in
      elim (Bool-cases (leb part i)) [
        | inl e' ↦
            rw (e, e')
              (ap (λ x. record { start = r.start + base * i - (i - part); end = x; nchildren = 0 })
                (capped_less r.end (r.start + base * i - (i - part) + (base - 1)) (omega arith)))
        | inr e' ↦
            rw (e, e')
              (ap (λ x. record { start = r.start + base * i; end = x; nchildren = 0 })
                (capped_less r.end (r.start + base * i + base) (omega arith)))
      ]
]

-- For a range that starts at or before its end, and at least one task but no more tasks than
-- elements: `InclusiveRangeInfo` gives each task the elements that `ExclusiveRangeInfo` gives it on
-- the range of the same elements, which excludes its end.
pub inclusive_sub_child-closed :
    (n i : ℕ) (r : Range)
    → 0 < n
    → r.start ≤ r.end
    → n ≤ inclusive_size r
    → inclusive_sub_child i r
        (inclusive_range_info r n).base_size
        (inclusive_range_info r n).task_part_point
      ≡ closed (
          sub_child i
            (opened r)
            (exclusive_range_info (opened r) n).base_size
            (exclusive_range_info (opened r) n).task_part_point)
unfolding inclusive_size inclusive_range_info inclusive_max_chunk
inclusive_sub_child-closed n i r pos le enough =
    let one_each : 1 ≤ (r.end - r.start + 1) / n = (le-div_iff_mul-le pos).1 (omega arith) in
    sub_child-closed i (inclusive_range_info r n).base_size
      (inclusive_range_info r n).task_part_point r (omega arith) (λ ne. ground arith)
    ∙ ap (λ info. closed (sub_child i (opened r) info.base_size info.task_part_point))
        (info-opened n r le)
