-- ===== src/TaskRecursion/Ends.antt =====
-- include/dparallel_recursion/parallel_recursion.h: how many steps the tasks make.
use dparallel_recursion.Common.{
  ℕ, zero, suc, ◌+◌, ◌≤◌, ◌<◌, ◌≡◌, subst, arith, some, >>=-eq-some, some_injective, if◌then◌else◌,
  List, [], Bool-cases, inl, inr,
}
use dparallel_recursion.ArrayRecursion.{
  ArrayInfo, ArrayBody, results_from, array_node, array_serial,
}
use dparallel_recursion.TaskRecursion.{
  Partitioner, partitioner_do_parallel, Task, spawned, awaiting, done, Tasks, no_tasks, one_more,
  spawn_children, execute, TaskStep, begin, child_step, resume, TasksStep, first_step, later_step,
  TaskReach, at_root, task_then,
}

unfoldable pub sum_from : (ℕ → ℕ) → ℕ → ℕ → ℕ
sum_from cost zero i = 0
sum_from cost (suc n) i = cost i + sum_from cost n (i + 1)

module _ {ℓ κ} {T : Type ℓ} {R : Type κ} (info : ArrayInfo T) (body : ArrayBody T R) where
  -- One step for a base case, and two for each other node, as if every node became a task.
  unfoldable pub node_cost : ℕ → T → ℕ
  unfolding sum_from
  node_cost zero d = 0
  node_cost (suc f) d =
      let d' = info.num_children (body.pre_rec (body.pre d)) in
      let kids = sum_from (λ i. node_cost f (info.child i d'.0)) d'.1 0 in
      if info.is_base (body.pre d) then 1 else 2 + kids

  -- A task has at most n steps to make, its children included.
  unfoldable mutual
    Costs : Task T R → ℕ → Type κ
    Costs (spawned d level) n =
        (f : ℕ) × (r : R) × (array_serial info body f d ≡ some r) × (node_cost f d ≤ n)
    Costs (awaiting d ts) n = (m : ℕ) × CostsAll ts m × (m < n)
    Costs (done r) n = (r : R) × (0 ≤ n)

    CostsAll : Tasks T R → ℕ → Type κ
    CostsAll no_tasks n = List R
    CostsAll (one_more t ts) n = (a : ℕ) × (b : ℕ) × Costs t a × CostsAll ts b × (a + b ≤ n)

  spawn_children-CostsAll :
      (f : ℕ) (child : ℕ → T) (level n i : ℕ) (rs : List R)
      → results_from (array_serial info body f) child n i ≡ some rs
      → CostsAll (spawn_children child level n i) (sum_from (λ k. node_cost f (child k)) n i)
  unfolding spawn_children results_from Costs CostsAll sum_from
  spawn_children-CostsAll f child level zero i rs e = []
  spawn_children-CostsAll f child level (suc n) i rs e =
      let (r, first, e') = >>=-eq-some (array_serial info body f (child i)) _ e in
      let (qs, rest, e2) =
        >>=-eq-some (results_from (array_serial info body f) child n (i + 1)) _ e' in
      (
        node_cost f (child i),
        sum_from (λ k. node_cost f (child k)) n (i + 1),
        (f, r, first, omega arith),
        spawn_children-CostsAll f child level n (i + 1) qs rest,
        omega arith,
      )

  execute-Costs :
      (partitioner : Partitioner T) (fuel level n : ℕ) (d : T) (t : Task T R)
      → execute partitioner info body fuel d level ≡ some t
      → Costs (spawned d level) n
      → (m : ℕ) × (m < n) × Costs t m
  unfolding execute array_serial array_node Costs CostsAll node_cost
  execute-Costs partitioner fuel level n d t e (zero, r, v, le) = cc
  execute-Costs partitioner fuel level n d t e (suc f, r, v, le) =
      elim (Bool-cases (info.is_base (body.pre d))) [
        | inl base ↦ (
          0,
          rw base at le,
          subst (λ u. Costs u 0) (some_injective (done (body.base (body.pre d))) t (rw base at e))
              (r, omega arith),
        )
        | inr node ↦
            let d' = info.num_children (body.pre_rec (body.pre d)) in
            let child : ℕ → T = λ i. info.child i d'.0 in
            let kids = sum_from (λ i. node_cost f (child i)) d'.1 0 in
            let many : 2 + kids ≤ n = rw node at le in
            let (rs, all, last) =
              >>=-eq-some (results_from (array_serial info body f) child d'.1 0) _ (rw node at v) in
            elim (Bool-cases (partitioner_do_parallel partitioner d'.0 level)) [
              | inl parallel ↦ (
                suc kids,
                omega (arith, many),
                subst (λ u. Costs u (suc kids))
                    (some_injective (awaiting d'.0 (spawn_children child (level + 1) d'.1 0)) t
                      (rw (node, parallel) at e))
                    (kids, spawn_children-CostsAll f child (level + 1) d'.1 0 rs all, omega arith),
              )
              | inr serial ↦
                  let (qs, all', last') =
                    >>=-eq-some (results_from (array_serial info body fuel) child d'.1 0) _
                      (rw (node, serial) at e) in
                  (
                    0,
                    omega (arith, many),
                    subst (λ u. Costs u 0) (some_injective (done (body.post d'.0 qs)) t last')
                        (r, omega arith),
                  )
            ]
      ]

  module _ (partitioner : Partitioner T) where
    mutual
      unfolding Costs CostsAll

      TaskStep-Costs :
          (t u : Task T R) (n : ℕ)
          → TaskStep partitioner info body t u
          → Costs t n
          → (m : ℕ) × (m < n) × Costs u m
      TaskStep-Costs t u n (begin fuel d level u' e) v =
          execute-Costs partitioner fuel level n d u e v
      TaskStep-Costs t u n (child_step d ts us step) v =
          let (m, vs, lt) = v in
          let (m', lt', vs') = TasksStep-CostsAll ts us m step vs in
          (suc m', omega (arith, lt, lt'), (m', vs', omega arith))
      TaskStep-Costs t u n (resume d ts rs e) v =
          let (m, vs, lt) = v in (0, omega (arith, lt), (body.post d rs, omega arith))

      TasksStep-CostsAll :
          (ts us : Tasks T R) (n : ℕ)
          → TasksStep partitioner info body ts us
          → CostsAll ts n
          → (m : ℕ) × (m < n) × CostsAll us m
      TasksStep-CostsAll ts us n (first_step t u ks step) v =
          let (a, b, first, rest, le) = v in
          let (a', lt, first') = TaskStep-Costs t u a step first in
          (a' + b, omega (arith, lt, le), (a', b, first', rest, omega arith))
      TasksStep-CostsAll ts us n (later_step t ks ls step) v =
          let (a, b, first, rest, le) = v in
          let (b', lt, rest') = TasksStep-CostsAll ks ls b step rest in
          (a + b', omega (arith, lt, le), (a, b', first, rest', omega arith))

    -- The steps of a run.
    unfoldable pub steps : {root : T} {t : Task T R} → TaskReach partitioner info body root t → ℕ
    steps at_root = 0
    steps (task_then reached step) = suc (steps reached)

    steps-Costs :
        (root : T) (t : Task T R) (n : ℕ) (reached : TaskReach partitioner info body root t)
        → Costs (spawned root 0) n
        → (m : ℕ) × (steps reached + m ≤ n) × Costs t m
    unfolding steps
    steps-Costs root t n at_root v = (n, omega arith, v)
    steps-Costs root t n (task_then {t = s} reached step) v =
        let (m, le, w) = steps-Costs root s n reached v in
        let (m', lt, w') = TaskStep-Costs s t m step w in (m', omega (arith, le, lt), w')

    -- Where the sequential recursion returns, with some fuel: a run of the tasks has no more steps
    -- than one for each base case and two for each other node of the tree that the recursion visits.
    pub steps-le :
        (root : T) (t : Task T R) (f : ℕ) (r : R) (reached : TaskReach partitioner info body root t)
        → array_serial info body f root ≡ some r
        → steps reached ≤ node_cost f root
    unfolding Costs CostsAll
    steps-le root t f r reached e =
        let (m, le, v) = steps-Costs root t (node_cost f root) reached (f, r, e, omega arith) in
        omega (arith, le)
