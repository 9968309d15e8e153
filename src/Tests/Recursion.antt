-- ===== src/Tests/Recursion.antt =====
-- The theorems on the recursions at the Fibonacci recursion.
use dparallel_recursion.Common.{ℕ, ◌+◌, ◌≤◌, ◌≡◌, refl, Bool, some, arith}
use dparallel_recursion.Skeleton.Tree.{value}
use dparallel_recursion.Serial.{do_it_serial, or_serial_func, serial_node, loop_children, loop_up}
use dparallel_recursion.Serial.Total.{do_it_serial-value}
use dparallel_recursion.Threads.{System, joined}
use dparallel_recursion.Threads.Reached.{AllOk, Reach-AllOk}
use dparallel_recursion.Threads.Balance.{Reach-total, joined-value, total}
use dparallel_recursion.Threads.Barrier.{IsDry}
use dparallel_recursion.Threads.Termination.{finished-IsDry}
use dparallel_recursion.Threads.Refinement.{joined-serial}
use dparallel_recursion.Threads.Progress.{examine-returns, some-Step}
use dparallel_recursion.Threads.{Step, examine}
use dparallel_recursion.StealStack.{StealStack, ss_top}
use dparallel_recursion.Tests.Fibonacci.{
  info, body, config, law, ranked, agrees, one, run, run-finished, all_wait, all_wait-going,
}

joined-serial_example :
    do_it_serial info body config 3 0 2 ≡ some (joined config info body 0 0 2 1 1 run.0)
joined-serial_example =
    joined-serial config info body 0 0 2 1 1 one law ranked agrees config 3 one run.1 run-finished
      (omega arith)

joined-value_example : joined config info body 0 0 2 1 1 run.0 ≡ value info body 0 ranked 2
joined-value_example =
    joined-value config info body 0 0 2 1 1 one law ranked agrees one run.1 run-finished

Reach-total_example :
    total config info body 0 0 2 1 1 one law ranked agrees run.0 ≡ value info body 0 ranked 2
Reach-total_example = Reach-total config info body 0 0 2 1 1 one law ranked agrees one run.1

Reach-AllOk_example : AllOk 1 run.0
Reach-AllOk_example = Reach-AllOk config info body 0 0 2 1 1 one law ranked agrees run.1

finished-IsDry_example : IsDry 1 run.0
finished-IsDry_example =
    finished-IsDry config info body 0 0 2 1 1 one law ranked agrees one run.1 0 (run-finished 0 one)

do_it_serial-value_example :
    do_it_serial info body config 5 7 4 ≡ some (7 + value info body 0 ranked 4)
do_it_serial-value_example =
    do_it_serial-value info body 0 law ranked agrees config 5 7 4 (omega arith)

-- fib 4 is 3
fibonacci_of_4 : do_it_serial info body config 5 7 4 ≡ some 10
unfolding do_it_serial or_serial_func serial_node loop_children loop_up
fibonacci_of_4 = refl

some-Step_example : (t : System ℕ ℕ) × Step config info body 0 0 2 1 1 all_wait.0 t
some-Step_example =
    some-Step config info body 0 0 2 1 1 one law ranked agrees one all_wait.1 0 one all_wait-going

abbrev root_stack : StealStack ℕ
root_stack = record {
  shared_start = 0;
  stack = λ i. 6;
  n_nodes = 0;
  stack_size = 4;
  local = 0;
  top = 1;
}

small_enough : ranked.rank (ss_top root_stack) ≤ 6
unfolding ss_top
small_enough = omega arith

examine-returns_example :
    (x : StealStack ℕ × ℕ × Bool) × (examine config info body 0 6 root_stack 1 ≡ some x)
examine-returns_example =
    examine-returns config info body 0 0 2 1 1 one law ranked agrees 6 root_stack 1 small_enough
