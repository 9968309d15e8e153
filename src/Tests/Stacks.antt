-- ===== src/Tests/Stacks.antt =====
-- The theorems on the stacks at concrete stacks.
use dparallel_recursion.Common.{
  ℕ, ◌+◌, ◌-◌, ◌≤◌, ◌<◌, ◌≡◌, ◌≢◌, refl, Bool, some, none, arith, zero, suc,
}
use dparallel_recursion.StealStack.{
  StealStack, ss_pop, ss_top, ss_check_stack_size, findwork, findwork_from, grow_while,
  ss_push_simple,
}
use dparallel_recursion.StealStack.View.{IsValid}
use dparallel_recursion.StealStack.Grow.{IsRegrown, ss_check_stack_size-room}
use dparallel_recursion.StealStack.Steal.{Steals, ss_steal-Steals, findwork-IsVictim, findwork-none}
use dparallel_recursion.Threads.{push_children, examine, branch, push_up, push_down}
use dparallel_recursion.Threads.Node.{Examined, weight, examine-Examined}
use dparallel_recursion.Skeleton.Tree.{add}
use dparallel_recursion.Tests.Fibonacci.{info, body, config, law, ranked, agrees}

-- The cell `i` holds `i`; two shared elements above a stolen one, and five local ones.
abbrev busy : StealStack ℕ
busy = record { shared_start = 1; stack = λ i. i; n_nodes = 0; stack_size = 12; local = 3; top = 8 }

abbrev lazy : StealStack ℕ
lazy = record { shared_start = 0; stack = λ i. 0; n_nodes = 0; stack_size = 1; local = 0; top = 0 }

busy-IsValid : IsValid busy
busy-IsValid = record { shared_le = omega arith; local_le = omega arith; fits = omega arith }

lazy-IsValid : IsValid lazy
lazy-IsValid = record { shared_le = omega arith; local_le = omega arith; fits = omega arith }

abbrev stacks : ℕ → StealStack ℕ
stacks zero = lazy
stacks (suc i) = busy

abbrev idle_stacks : ℕ → StealStack ℕ
idle_stacks i = lazy

ss_check_stack_size-room_example :
    IsRegrown busy (ss_check_stack_size 0 busy 10)
    × ((ss_check_stack_size 0 busy 10).top + 10 ≤ (ss_check_stack_size 0 busy 10).stack_size)
ss_check_stack_size-room_example = ss_check_stack_size-room 0 busy 10 busy-IsValid

ss_steal-Steals_example : Steals 0 lazy busy 2
ss_steal-Steals_example = ss_steal-Steals 0 lazy busy 2 lazy-IsValid busy-IsValid

victim_of_0 : findwork 3 0 2 stacks ≡ some 1
unfolding findwork findwork_from
victim_of_0 = refl

findwork-IsVictim_example :
    (1 < 3) × (◌≢◌ {A = ℕ} 1 0) × (2 ≤ (stacks 1).local - (stacks 1).shared_start)
findwork-IsVictim_example = findwork-IsVictim 3 0 2 stacks 1 (omega arith) victim_of_0

no_victim : findwork 3 0 2 idle_stacks ≡ none
unfolding findwork findwork_from
no_victim = refl

findwork-none_example : (idle_stacks 2).local - (idle_stacks 2).shared_start < 2
findwork-none_example =
    findwork-none 3 0 2 idle_stacks (omega arith) no_victim 2 (omega arith)
      (λ e. absurd (omega arith))

examined : (x : StealStack ℕ × ℕ × Bool) × (examine config info body 0 9 busy 5 ≡ some x)
unfolding examine branch push_children ss_check_stack_size grow_while push_up push_down
    ss_push_simple ss_pop ss_top
examined = (_, refl)

examine-Examined_example :
    Examined
      (add info body 0)
      (weight info body 0 law ranked agrees config 0)
      busy
      examined.0.0
      5
      examined.0.1
examine-Examined_example =
    examine-Examined info body 0 law ranked agrees config 0 9 busy 5 examined.0 busy-IsValid
      (omega arith) examined.1
