-- ===== src/Tests/Loops.antt =====
-- The theorems on parallel loops at the sum of the squares from 3 to 9.
use dparallel_recursion.Common.{
  ℕ, ◌+◌, ◌*◌, ◌≤◌, ◌<◌, ◌≡◌, refl, false, some, none, arith, zero, suc,
}
use dparallel_recursion.Common.Reduction.{IsReduction, sum_below}
use dparallel_recursion.SRange.{SRange, srange, child, is_base, do_parallel, psr_tmp_func}
use dparallel_recursion.SRange.Split.{IsPartition, child-IsPartition, srange-IsValid}
use dparallel_recursion.SRange.Reduce.{loop_info, loop_body, joined-loop}
use dparallel_recursion.Skeleton.{Info, Body}
use dparallel_recursion.StealStack.{
  StealStack, ss_mk_empty, ss_init, ss_grow_stack_size, grow_while, ss_check_stack_size,
  ss_push_simple, ss_push, ss_top, ss_setvalue_pos, ss_pop, ss_top_posn, ss_local_depth, ss_release,
  ss_acquire, release_multiple_nodes,
}
use dparallel_recursion.Threads.{
  push_up, push_down, push_children, branch, examine, System, start, work, release, acquire, arrive,
  check, complete, leave, decrement, reset, return, Reach, begin, then_step, init, finished, joined,
}
use dparallel_recursion.Range.{Range, sub_child, inclusive_size, generic_pr_for_reduce_body}
use dparallel_recursion.Range.Reduce.{tasks_info, tasks_body, pfor_reduce-iterations}
use dparallel_recursion.ArrayRecursion.{ArrayInfo, ArrayBody, ArrayVoidBody, array_serial}
use dparallel_recursion.Common.{leb, ◌/◌, ◌-◌}
use dparallel_recursion.Tests.Fibonacci.{config, one, two}

abbrev plus : ℕ → ℕ → ℕ
plus a b = a + b

abbrev square : ℕ → ℕ
square i = i * i

plus-IsReduction : IsReduction plus 0
plus-IsReduction = record {
  assoc = λ a b c. omega arith;
  comm = λ a b. omega arith;
  identity = λ a. omega arith;
}

child-IsPartition_example : IsPartition 3 (srange 3 11)
child-IsPartition_example =
    child-IsPartition 3 (srange 3 11) (omega arith) (srange-IsValid 3 11 (omega arith))

long : is_base 3 (srange 3 11) ≡ false
unfolding is_base srange
long = refl

at_least_two : 2 ≤ 2
at_least_two = omega arith

abbrev nothing : SRange
nothing = record { start = 0; end = 0; range_len = 0 }

abbrev sum_info : Info SRange ℕ
sum_info = loop_info plus 0 plus-IsReduction square 2 at_least_two none

abbrev sum_body : Body SRange ℕ
sum_body = loop_body plus 0 plus-IsReduction square 2 at_least_two none

abbrev empty : ℕ → StealStack SRange
empty i = record {
  shared_start = 0;
  stack = λ i. nothing;
  n_nodes = 0;
  stack_size = 0;
  local = 0;
  top = 0;
}

abbrev R : System SRange ℕ → Type 0
R = Reach config sum_info sum_body 0 nothing (srange 3 5) 1 1 empty 1

loop_run : (s : System SRange ℕ) × R s
unfolding init ss_init ss_mk_empty ss_grow_stack_size grow_while ss_check_stack_size ss_push_simple
    ss_push ss_top ss_setvalue_pos ss_pop ss_top_posn ss_local_depth ss_release ss_acquire
    release_multiple_nodes push_up push_down push_children branch examine is_base do_parallel child
    srange
loop_run =
    let r1 =
      then_step {s = init config sum_info sum_body 0 nothing (srange 3 5) 1 1 empty 1} begin
        (start 0 one refl) in
    let r2 = then_step r1 (work 0 3 _ _ _ one refl one refl) in
    let r3 = then_step r2 (release 0 one refl) in
    let r4 = then_step r3 (work 0 3 _ _ _ one refl two refl) in
    let r5 = then_step r4 (work 0 3 _ _ _ one refl one refl) in
    let r6 = then_step r5 (acquire 0 one refl refl) in
    let r7 = then_step r6 (arrive 0 one refl) in
    let r8 = then_step r7 (check 0 one refl) in
    let r9 = then_step r8 (complete 0 one refl) in
    let r10 = then_step r9 (leave 0 one refl refl) in
    let r11 = then_step r10 (decrement 0 one refl) in
    let r12 = then_step r11 (reset 0 one refl) in (_, then_step r12 (return 0 one refl))

loop_run-finished : (i : ℕ) → i < 1 → loop_run.0.pc i ≡ finished
unfolding loop_run init
loop_run-finished zero lt = refl
loop_run-finished (suc i) lt = absurd (omega arith)

joined-loop_example :
    joined config sum_info sum_body 0 nothing (srange 3 5) 1 1 loop_run.0
    ≡ sum_below plus 0 (λ i. square (3 + i)) 2
joined-loop_example =
    joined-loop plus 0 plus-IsReduction square 2 at_least_two none config nothing 1 1 3 5 one one
      (omega arith) loop_run.1 loop_run-finished

abbrev ten : Range
ten = record { start = 3; end = 13; nchildren = 0 }

pfor_reduce-iterations_example :
    array_serial
      (tasks_info plus 0 plus-IsReduction square 4 (omega arith) ten (omega arith))
      (tasks_body plus 0 plus-IsReduction square 4 (omega arith) ten (omega arith))
      2
      ten
    ≡ some (sum_below plus 0 (λ i. square (3 + i)) 10)
pfor_reduce-iterations_example =
    pfor_reduce-iterations plus 0 plus-IsReduction square 4 (omega arith) ten (omega arith) 0

abbrev two_info : ArrayInfo Range
two_info = record {
  is_base = λ r. leb (r.end - r.start) 3;
  num_children = λ r. (r, 2);
  child = λ i r. sub_child i r ((r.end - r.start) / 2) 0;
}

abbrev two_body : ArrayBody Range ℕ
two_body = generic_pr_for_reduce_body (psr_tmp_func plus square 0) plus 0

abbrev two_void : ArrayVoidBody Range ℕ
two_void = record {
  pre = λ r. r;
  pre_rec = λ r. r;
  base = λ r w. w + psr_tmp_func plus square 0 r.start r.end;
}

enough_elements : 4 ≤ inclusive_size ten
unfolding inclusive_size
enough_elements = omega arith
