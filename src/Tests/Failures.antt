-- ===== src/Tests/Failures.antt =====
-- The theorems on exceptions at a run of the Fibonacci recursion whose first hook throws.
use dparallel_recursion.Common.{ℕ, zero, suc, ◌<◌, ◌≡◌, refl, true, some, none, arith, ◌⊎◌}
use dparallel_recursion.Skeleton.Tree.{value}
use dparallel_recursion.StealStack.{
  ss_init, ss_mk_empty, ss_grow_stack_size, grow_while, ss_push_simple, ss_push,
}
use dparallel_recursion.Threads.{start, init}
use dparallel_recursion.Threads.Exceptions.{
  Failable, returned, rethrown, FailStep, proceed, throw, set_done, set_cancel, fail_init,
  FailReach, fail_begin, fail_then, outcome, IsOver,
}
use dparallel_recursion.Threads.Exceptions.Errors.{outcome-value, some-FailStep}
use dparallel_recursion.Tests.Fibonacci.{info, body, config, law, ranked, agrees, one, empty}

abbrev F : Failable ℕ ℕ ℕ → Type 0
F = FailReach config info body 0 0 2 1 1 empty 1

-- Thread 0 pushes the root, its hook throws 42, and the catch clause runs.
thrown : (s : Failable ℕ ℕ ℕ) × F s
unfolding fail_init init ss_init ss_mk_empty ss_grow_stack_size grow_while ss_push_simple ss_push
thrown =
    let f1 =
      fail_then {s = fail_init config info body 0 0 2 1 1 empty 1} fail_begin
        (proceed _ (start 0 one refl)) in
    (_, fail_then f1 (throw 0 42 (empty 0) one refl))

caught : (s : Failable ℕ ℕ ℕ) × F s
unfolding thrown fail_init init
caught = (_, fail_then (fail_then thrown.1 (set_done 0 one refl)) (set_cancel 0 one refl))

caught-IsOver : (i : ℕ) → i < 1 → IsOver caught.0 i
unfolding caught thrown fail_init init
caught-IsOver zero lt = (refl, refl, refl)
caught-IsOver (suc i) lt = absurd (omega arith)

outcome-value_example :
    ((caught.0.global_exception ≡ none)
      × (outcome config info body 0 0 2 1 1 caught.0 ≡ returned (value info body 0 ranked 2)))
    ⊎ ((e : ℕ) × (caught.0.global_exception ≡ some e)
        × (outcome config info body 0 0 2 1 1 caught.0 ≡ rethrown e)
        × (caught.0.system.cb_done ≡ true))
outcome-value_example =
    outcome-value config info body 0 0 2 1 1 one law ranked agrees one caught.1 caught-IsOver

thrown-going : ¬ IsOver thrown.0 0
unfolding thrown
thrown-going over = let still = over.1 in cc

some-FailStep_example : (t : Failable ℕ ℕ ℕ) × FailStep config info body 0 0 2 1 1 thrown.0 t
some-FailStep_example =
    some-FailStep config info body 0 0 2 1 1 one law ranked agrees one thrown.1 0 one thrown-going
