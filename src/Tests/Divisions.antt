-- ===== src/Tests/Divisions.antt =====
-- The division of seven elements among two processes of three tasks.
use dparallel_recursion.Common.{ℕ, ◌+◌, ◌-◌, ◌≤◌, ◌<◌, ◌≡◌, refl, arith, false}
use dparallel_recursion.Range.{Range, exclusive_size, exclusive_max_chunk}
use dparallel_recursion.Range.Split.{bound}
use dparallel_recursion.DRange.{RangeDInfo, exclusive_range_dinfo, d_is_base, d_child}
use dparallel_recursion.DRange.Clip.{task_bound}
use dparallel_recursion.DRange.Split.{d_child-tasks, d_child-empty}

abbrev seven : Range
seven = record { start = 0; end = 7; nchildren = 0 }

abbrev seven_dinfo : RangeDInfo
seven_dinfo = exclusive_range_dinfo seven 2 3

-- Process 1 has the last three elements.
abbrev second : Range
second = record { start = bound 2 seven 1; end = bound 2 seven (1 + 1); nchildren = 0 }

enough_elements : 2 + 2 + 2 ≤ exclusive_size seven
unfolding exclusive_size
enough_elements = omega arith

d_child-tasks_example :
    (d_child seven_dinfo 1 seven ≡ second)
    × ((i : ℕ)
        → i < 3
        → d_child seven_dinfo i second ≡ record {
          start = task_bound (exclusive_max_chunk seven 2) 3 second i;
          end = task_bound (exclusive_max_chunk seven 2) 3 second (i + 1);
          nchildren = 0;
        })
    × (task_bound (exclusive_max_chunk seven 2) 3 second 0 ≡ second.start)
    × (task_bound (exclusive_max_chunk seven 2) 3 second 3 ≡ second.end)
d_child-tasks_example =
    d_child-tasks seven 2 3 (omega arith) (omega arith) (omega arith) enough_elements 1
      (omega arith)

size_of_seven : exclusive_size seven ≡ 7
unfolding exclusive_size
size_of_seven = refl

d_child-empty_example :
    (d_is_base seven_dinfo second ≡ false)
    × (d_child seven_dinfo (3 - 1) second
        ≡ record { start = second.end; end = second.end; nchildren = 0 })
d_child-empty_example =
    d_child-empty seven 2 3 (omega arith) (omega arith) (omega arith) enough_elements 1
      size_of_seven (omega arith) (omega arith) (omega arith)
