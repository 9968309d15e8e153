-- ===== src/Tests/Tasks.antt =====
-- The theorems on tasks at a run of the Fibonacci recursion, where every node becomes a task.
use dparallel_recursion.Common.{
  ℕ, zero, suc, ◌+◌, ◌-◌, ◌≤◌, ◌<◌, ◌^◌, arith, ◌≡◌, refl, some, ltb, ◌⊎◌, List, [], ◌∷◌,
}
use dparallel_recursion.ArrayRecursion.{
  ArrayInfo, ArrayBody, results_from, array_node, array_serial,
}
use dparallel_recursion.TaskRecursion.{
  simple, partitioner_do_parallel, Task, spawned, awaiting, done, Tasks, no_tasks, one_more,
  spawn_children, all_results, execute, TaskStep, begin, child_step, resume, first_step, later_step,
  TaskReach, at_root, task_then,
}
use dparallel_recursion.TaskRecursion.Sound.{done-array_serial}
use dparallel_recursion.TaskRecursion.Progress.{some-TaskStep}
use dparallel_recursion.Arity.{nlevels, levels_for_ntasks}
use dparallel_recursion.Arity.Levels.{levels_for_ntasks-least}
use dparallel_recursion.TaskRecursion.Ends.{node_cost, steps, steps-le}

abbrev earlier : ℕ → ℕ → ℕ
earlier zero d = d - 1
earlier (suc i) d = d - 2

abbrev pairs : ArrayInfo ℕ
pairs = record { is_base = λ d. ltb d 2; num_children = λ d. (d, 2); child = earlier }

abbrev total : List ℕ → ℕ
total [] = 0
total (x ∷ xs) = x + total xs

abbrev adding : ArrayBody ℕ ℕ
adding = record { pre = λ d. d; pre_rec = λ d. d; base = λ d. d; post = λ d rs. total rs }

abbrev S : Task ℕ ℕ → Task ℕ ℕ → Type 0
S = TaskStep simple pairs adding

abbrev waits : Tasks ℕ ℕ → Task ℕ ℕ
waits = awaiting 2

root_begins : S (spawned 2 0) (waits (one_more (spawned 1 1) (one_more (spawned 0 1) no_tasks)))
unfolding execute partitioner_do_parallel spawn_children results_from array_serial
root_begins = begin 0 2 0 _ refl

-- The second child runs first.
second_begins : S (spawned 0 1) (done 0)
unfolding execute
second_begins = begin 0 0 1 _ refl

first_begins : S (spawned 1 1) (done 1)
unfolding execute
first_begins = begin 0 1 1 _ refl

root_resumes : S (waits (one_more (done 1) (one_more (done 0) no_tasks))) (done 1)
unfolding all_results
root_resumes = resume 2 _ (1 ∷ 0 ∷ []) refl

half_run :
    TaskReach simple pairs adding 2 (waits (one_more (spawned 1 1) (one_more (done 0) no_tasks)))
half_run =
    task_then (task_then at_root root_begins)
      (child_step 2 _ _ (later_step (spawned 1 1) _ _ (first_step _ _ no_tasks second_begins)))

whole_run : TaskReach simple pairs adding 2 (done 1)
whole_run =
    task_then
      (task_then half_run
        (child_step 2 _ _ (first_step _ _ (one_more (done 0) no_tasks) first_begins)))
      root_resumes

returns : array_serial pairs adding 2 2 ≡ some 1
unfolding array_serial array_node results_from
returns = refl

done-array_serial_example : total (1 ∷ 0 ∷ []) ≡ 1
done-array_serial_example = done-array_serial pairs adding simple 2 2 1 1 returns whole_run

some-TaskStep_example :
    (waits (one_more (spawned 1 1) (one_more (done 0) no_tasks)) ≡ done 1)
    ⊎ ((u : Task ℕ ℕ) × S (waits (one_more (spawned 1 1) (one_more (done 0) no_tasks))) u)
some-TaskStep_example = some-TaskStep pairs adding simple 2 _ 2 1 returns half_run

steps-le_example : steps pairs adding simple whole_run ≤ node_cost pairs adding 2 2
steps-le_example = steps-le pairs adding simple 2 (done 1) 2 1 whole_run returns

-- Eight tasks of a binary problem: three levels.
levels_for_ntasks-least_example :
    (level : ℕ) × (levels_for_ntasks 8 2 8 ≡ some level)
    × (8 ≤ 2 ^ level)
    × ((k : ℕ) → k < level → 2 ^ k < 8)
levels_for_ntasks-least_example =
    levels_for_ntasks-least 8 2 8 (omega arith) (omega arith) (omega arith) (omega arith)

three_levels : levels_for_ntasks 8 2 8 ≡ some 3
unfolding levels_for_ntasks nlevels
three_levels = refl
