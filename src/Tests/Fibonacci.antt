-- ===== src/Tests/Fibonacci.antt =====
-- The Fibonacci recursion as a problem of the skeletons, and a run of it on one thread.
use dparallel_recursion.Common.{
  ℕ, ◌+◌, ◌-◌, ◌<◌, ◌≡◌, ◌≢◌, refl, zero, suc, true, false, none, arith, leb, leb→lt,
}
use dparallel_recursion.Common.Reduction.{IsReduction}
use dparallel_recursion.Skeleton.{Info, Body, VoidBody, Config}
use dparallel_recursion.Skeleton.Tree.{IsRanked, add}
use dparallel_recursion.Serial.Total.{SerialFuncAgrees}
use dparallel_recursion.StealStack.{
  StealStack, ss_mk_empty, ss_init, ss_grow_stack_size, grow_while, ss_check_stack_size,
  ss_push_simple, ss_push, ss_top, ss_setvalue_pos, ss_pop, ss_top_posn, ss_local_depth, ss_release,
  ss_acquire, release_multiple_nodes,
}
use dparallel_recursion.Threads.{
  push_up, push_down, push_children, branch, examine, System, start, work, release, acquire, arrive,
  check, complete, leave, decrement, reset, return, Reach, begin, then_step, init, finished,
  waiting,
}

abbrev pub info : Info ℕ ℕ
info = record {
  is_base = λ d. leb d 1;
  num_children = λ d. 2;
  child = λ i d. d - 1 - i;
  do_parallel = λ d. true;
  do_serial_func = none;
}

abbrev pub body : Body ℕ ℕ
body = record {
  process_non_base = false;
  pre = λ d. d;
  pre_rec = λ d. d;
  base = λ d. d;
  non_base = λ d. 0;
  post = λ r rr. rr + r;
}

abbrev pub config : Config
config = record { force_l_to_r = false; force_r_to_l = false }

pub law : IsReduction (add info body 0) 0
law = record {
  assoc = λ a b c. omega arith;
  comm = λ a b. omega arith;
  identity = λ a. omega arith;
}

abbrev pub ranked : IsRanked info body
ranked = record {
  rank = λ d. d;
  child-lt = λ d i inner lt. let big = leb→lt d 1 inner in omega arith;
}

pub agrees : SerialFuncAgrees info body 0 law ranked
agrees g d r e = cc

abbrev pub empty : ℕ → StealStack ℕ
empty i = record {
  shared_start = 0;
  stack = λ i. 0;
  n_nodes = 0;
  stack_size = 0;
  local = 0;
  top = 0;
}

abbrev R : System ℕ ℕ → Type 0
R = Reach config info body 0 0 2 1 1 empty 1

pub one : 0 < 1
one = omega arith

pub two : 0 < 2
two = omega arith

pub run : (s : System ℕ ℕ) × R s
unfolding init ss_init ss_mk_empty ss_grow_stack_size grow_while ss_check_stack_size ss_push_simple
    ss_push ss_top ss_setvalue_pos ss_pop ss_top_posn ss_local_depth ss_release ss_acquire
    release_multiple_nodes push_up push_down push_children branch examine
run =
    let r1 = then_step {s = init config info body 0 0 2 1 1 empty 1} begin (start 0 one refl) in
    let r2 = then_step r1 (work 0 3 _ _ _ one refl one refl) in
    let r3 = then_step r2 (release 0 one refl) in
    let r4 = then_step r3 (work 0 3 _ _ _ one refl two refl) in
    let r5 = then_step r4 (work 0 3 _ _ _ one refl one refl) in
    let r6 = then_step r5 (acquire 0 one refl refl) in
    let r7 = then_step r6 (arrive 0 one refl) in
    let r8 = then_step r7 (check 0 one refl) in
    let r9 = then_step r8 (complete 0 one refl) in
    let r10 = then_step r9 (leave 0 one refl refl) in
    let r11 = then_step r10 (decrement 0 one refl) in
    let r12 = then_step r11 (reset 0 one refl) in (_, then_step r12 (return 0 one refl))

pub run-finished : (i : ℕ) → i < 1 → run.0.pc i ≡ finished
unfolding run init
run-finished zero lt = refl
run-finished (suc i) lt = absurd (omega arith)

-- A body without a result, which sums the leaves in memory.
abbrev pub void_body : VoidBody ℕ ℕ
void_body = record {
  process_non_base = true;
  pre = λ d. d;
  pre_rec = λ d. d;
  base = λ d w. w + d;
  non_base = λ d w. w + 10;
}

pub all_wait : (s : System ℕ ℕ) × R s
unfolding init ss_init ss_mk_empty ss_grow_stack_size grow_while ss_check_stack_size ss_push_simple
    ss_push ss_top ss_setvalue_pos ss_pop ss_top_posn ss_local_depth ss_release ss_acquire
    release_multiple_nodes push_up push_down push_children branch examine
all_wait =
    let r1 = then_step {s = init config info body 0 0 2 1 1 empty 1} begin (start 0 one refl) in
    let r2 = then_step r1 (work 0 3 _ _ _ one refl one refl) in
    let r3 = then_step r2 (release 0 one refl) in
    let r4 = then_step r3 (work 0 3 _ _ _ one refl two refl) in
    let r5 = then_step r4 (work 0 3 _ _ _ one refl one refl) in
    let r6 = then_step r5 (acquire 0 one refl refl) in
    let r7 = then_step r6 (arrive 0 one refl) in
    let r8 = then_step r7 (check 0 one refl) in
    let r9 = then_step r8 (complete 0 one refl) in (_, r9)

pub all_wait-waiting : (i : ℕ) → i < 1 → all_wait.0.pc i ≡ waiting
unfolding all_wait init
all_wait-waiting zero lt = refl
all_wait-waiting (suc i) lt = absurd (omega arith)

pub all_wait-going : all_wait.0.pc 0 ≢ finished
unfolding all_wait init
all_wait-going e = cc
