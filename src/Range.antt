-- ===== src/Range.antt =====
-- include/dparallel_recursion/Range.h: the division of a range into tasks, and the body of a parallel
-- loop with a reduction over it. Bounds are numbers, and `start` is at most `end`.
pub mod Split
pub mod Reduce
pub mod Inclusive
use dparallel_recursion.Common.{
  ℕ, zero, suc, ◌+◌, ◌-◌, ◌*◌, ◌/◌, ◌%◌, Bool, true, false, ltb, leb, ◌==◌, if◌then◌else◌, List, [],
  ◌∷◌,
}
use dparallel_recursion.ArrayRecursion.{ArrayInfo, ArrayBody}

pub record Range : Type 0 where
  pub start : ℕ
  pub end : ℕ
  pub nchildren : ℕ

unfoldable pub exclusive_size : Range → ℕ
exclusive_size r = r.end - r.start

unfoldable pub exclusive_max_chunk : Range → ℕ → ℕ
unfolding exclusive_size
exclusive_max_chunk r nchunks =
    exclusive_size r / nchunks + (if exclusive_size r % nchunks == 0 then 0 else 1)

-- The fields of ExclusiveRangeInfo and InclusiveRangeInfo.
pub record RangeInfo : Type 0 where
  pub ntasks : ℕ
  pub base_size : ℕ
  pub task_part_point : ℕ

-- ExclusiveRangeInfo, as its constructor makes it.
unfoldable pub exclusive_range_info : Range → ℕ → RangeInfo
unfolding exclusive_size exclusive_max_chunk
exclusive_range_info r ntasks = record {
  ntasks = ntasks;
  base_size = exclusive_max_chunk r ntasks;
  task_part_point = exclusive_size r % ntasks;
}

-- The smaller of the two, as std::min
abbrev smaller : ℕ → ℕ → ℕ
smaller a b = if ltb b a then b else a

-- ExclusiveRangeInfo::sub_child: `Range { begin, end }` leaves `nchildren` at 0.
unfoldable pub sub_child : ℕ → Range → ℕ → ℕ → Range
sub_child i r base_size part_point =
    let begin = r.start + base_size * i in
    if part_point == 0
    then record { start = begin; end = smaller r.end (begin + base_size); nchildren = 0 }
    else (if leb part_point i
        then record {
          start = begin - (i - part_point);
          end = smaller r.end (begin - (i - part_point) + (base_size - 1));
          nchildren = 0;
        }
        else record { start = begin; end = smaller r.end (begin + base_size); nchildren = 0 })

-- The same for a range that includes its end.
unfoldable pub inclusive_size : Range → ℕ
inclusive_size r = r.end - r.start + 1

unfoldable pub inclusive_max_chunk : Range → ℕ → ℕ
unfolding inclusive_size
inclusive_max_chunk r nchunks =
    inclusive_size r / nchunks + (if inclusive_size r % nchunks == 0 then 0 else 1)

unfoldable pub inclusive_range_info : Range → ℕ → RangeInfo
unfolding inclusive_size inclusive_max_chunk
inclusive_range_info r ntasks = record {
  ntasks = ntasks;
  base_size = inclusive_max_chunk r ntasks;
  task_part_point = inclusive_size r % ntasks;
}

-- InclusiveRangeInfo::sub_child, where `begin + sz` is above 0.
unfoldable pub inclusive_sub_child : ℕ → Range → ℕ → ℕ → Range
inclusive_sub_child i r base_size part_point =
    let begin = r.start + base_size * i in
    if part_point == 0
    then record { start = begin; end = smaller r.end (begin + base_size - 1); nchildren = 0 }
    else (if leb part_point i
        then record {
          start = begin - (i - part_point);
          end = smaller r.end (begin - (i - part_point) + (base_size - 1) - 1);
          nchildren = 0;
        }
        else record { start = begin; end = smaller r.end (begin + base_size - 1); nchildren = 0 })

-- The methods of ExclusiveRangeInfo.
abbrev pub array_info : RangeInfo → ArrayInfo Range
array_info info = record {
  is_base = λ r. leb (exclusive_size r) info.base_size;
  num_children = λ r. (record r { nchildren = info.ntasks }, info.ntasks);
  child = λ i r. sub_child i r info.base_size info.task_part_point;
}

-- for (int i = 1; i < range.nchildren; i++) *r = rf_(*r, r[i]), with `n` rounds left; an array that
-- is too short is not read.
unfoldable pub reduce_results {κ} : {R : Type κ} → (R → R → R) → R → ℕ → List R → R
reduce_results rf acc zero rs = acc
reduce_results rf acc (suc n) [] = acc
reduce_results rf acc (suc n) (r ∷ rs) = reduce_results rf (rf acc r) n rs

unfoldable pub post_results {κ} : {R : Type κ} → (R → R → R) → R → Range → List R → R
unfolding reduce_results
post_results rf unit range [] = unit
post_results rf unit range (r ∷ rs) = reduce_results rf r (range.nchildren - 1) rs

-- generic_pr_for_reduce_body
abbrev pub generic_pr_for_reduce_body {κ} :
    {R : Type κ} → (ℕ → ℕ → R) → (R → R → R) → R → ArrayBody Range R
generic_pr_for_reduce_body f rf unit = record {
  pre = λ r. r;
  pre_rec = λ r. r;
  base = λ r. f r.start r.end;
  post = post_results rf unit;
}
