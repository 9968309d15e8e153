-- ===== src/DRange.antt =====
-- include/dparallel_recursion/DRange.h: ExclusiveRangeDInfo, the division of a range among processes, and of
-- the part of each process into tasks.
pub mod Clip
pub mod Split
use dparallel_recursion.Common.{
  ℕ, ◌+◌, ◌%◌, ◌≤◌, Bool, true, false, not, ◌&&◌, ltb, leb, ◌==◌, if◌then◌else◌,
}
use dparallel_recursion.Range.{Range, exclusive_size, exclusive_max_chunk, sub_child}

pub record RangeDInfo : Type 0 where
  pub init_range : ℕ
  pub nprocs : ℕ
  pub ntasks : ℕ
  pub proc_size : ℕ
  pub proc_part_point : ℕ
  pub base_size : ℕ
  pub task_part_point : ℕ

-- The constructor for several processes; 0 processes stand for less than 2.
unfoldable pub exclusive_range_dinfo : Range → ℕ → ℕ → RangeDInfo
unfolding exclusive_size exclusive_max_chunk
exclusive_range_dinfo r nprocs ntasks =
    let procs = if ltb nprocs 2 then 0 else nprocs in
    let proc_size = if procs == 0 then 0 else exclusive_max_chunk r nprocs in
    let proc_part_point = if procs == 0 then 0 else exclusive_size r % nprocs in
    let subrange = if procs == 0 then exclusive_size r else proc_size in
    record {
      init_range = exclusive_size r;
      nprocs = procs;
      ntasks = ntasks;
      proc_size = proc_size;
      proc_part_point = proc_part_point;
      base_size = exclusive_max_chunk (record { start = 0; end = subrange; nchildren = 0 }) ntasks;
      task_part_point = subrange % ntasks;
    }

-- Whether the range is the whole one, and there are processes.
unfoldable pub for_processes : RangeDInfo → Range → Bool
unfolding exclusive_size
for_processes d r = not (d.nprocs == 0) && (exclusive_size r == d.init_range)

-- num_children stores its answer in the range.
unfoldable pub d_num_children : RangeDInfo → Range → Range
unfolding for_processes
d_num_children d r = record r { nchildren = if for_processes d r then d.nprocs else d.ntasks }

unfoldable pub d_is_base : RangeDInfo → Range → Bool
unfolding exclusive_size
d_is_base d r = leb (exclusive_size r) d.base_size

unfoldable pub d_child : RangeDInfo → ℕ → Range → Range
unfolding for_processes sub_child
d_child d i r =
    if for_processes d r
    then sub_child i r d.proc_size d.proc_part_point
    else sub_child i r d.base_size d.task_part_point
