-- ===== src/TaskRecursion/Progress.antt =====
-- include/dparallel_recursion/parallel_recursion.h: the tasks of a run never stop before the root is done.
use dparallel_recursion.Common.{
  ℕ, zero, suc, ◌+◌, ◌≡◌, refl, ap, ◌∙◌, some, ◌>>=◌, >>=-eq-some, List, ◌∷◌, Bool-cases, ◌⊎◌, inl,
  inr,
}
use dparallel_recursion.ArrayRecursion.{
  ArrayInfo, ArrayBody, results_from, array_node, array_serial,
}
use dparallel_recursion.TaskRecursion.{
  Partitioner, partitioner_do_parallel, Task, spawned, awaiting, done, Tasks, no_tasks, one_more,
  spawn_children, all_results, execute, TaskStep, begin, child_step, resume, TasksStep, first_step,
  later_step, TaskReach,
}
use dparallel_recursion.TaskRecursion.Fuel.{results_from-more, array_serial-suc}
use dparallel_recursion.TaskRecursion.Sound.{Denotes, DenotesAll, TaskReach-Denotes}

module _ {ℓ κ} {T : Type ℓ} {R : Type κ} (info : ArrayInfo T) (body : ArrayBody T R)
    (partitioner : Partitioner T) where
  execute-some :
      (f level : ℕ) (d : T) (r : R)
      → array_serial info body f d ≡ some r
      → (t : Task T R) × (execute partitioner info body f d level ≡ some t)
  unfolding execute array_serial array_node
  execute-some zero level d r e = cc
  execute-some (suc f) level d r e = elim (Bool-cases (info.is_base (body.pre d))) [
    | inl base ↦ (done (body.base (body.pre d)), rw base refl)
    | inr node ↦
        let d' = info.num_children (body.pre_rec (body.pre d)) in
        let child : ℕ → T = λ i. info.child i d'.0 in
        let (rs, all, last) =
          >>=-eq-some (results_from (array_serial info body f) child d'.1 0) _ (rw node at e) in
        elim (Bool-cases (partitioner_do_parallel partitioner d'.0 level)) [
          | inl parallel ↦
              (awaiting d'.0 (spawn_children child (level + 1) d'.1 0), rw (node, parallel) refl)
          | inr serial ↦ (
            done (body.post d'.0 rs),
            rw
                (
                  node,
                  serial,
                  results_from-more (array_serial info body f) (array_serial info body (suc f))
                      child d'.1 0 rs (array_serial-suc info body f) all,
                )
                refl,
          )
        ]
  ]

  mutual
    unfolding Denotes DenotesAll all_results

    Denotes-TaskStep :
        (t : Task T R) (r : R)
        → Denotes info body t r
        → (t ≡ done r) ⊎ ((u : Task T R) × TaskStep partitioner info body t u)
    Denotes-TaskStep (spawned d level) r (f, e) =
        let (t, run) = execute-some f level d r e in inr (t, begin f d level t run)
    Denotes-TaskStep (awaiting d ts) r v =
        let (rs, vs, last) = v in
        elim (DenotesAll-TasksStep ts rs vs) [
          | inl all ↦ inr (done (body.post d rs), resume d ts rs all)
          | inr (us, step) ↦ inr (awaiting d us, child_step d ts us step)
        ]
    Denotes-TaskStep (done q) r v = inl (ap done v)

    DenotesAll-TasksStep :
        (ts : Tasks T R) (rs : List R)
        → DenotesAll info body ts rs
        → (all_results ts ≡ some rs) ⊎ ((us : Tasks T R) × TasksStep partitioner info body ts us)
    DenotesAll-TasksStep no_tasks rs v = inl (ap some v)
    DenotesAll-TasksStep (one_more t ts) rs v =
        let (q, qs, first, rest, whole) = v in
        elim (Denotes-TaskStep t q first) [
          | inr (u, step) ↦ inr (one_more u ts, first_step t u ts step)
          | inl over ↦ elim (DenotesAll-TasksStep ts qs rest) [
            | inr (us, step) ↦ inr (one_more t us, later_step t ts us step)
            | inl all ↦ inl (
                ap (λ x. all_results (one_more x ts)) over
                ∙ ap (λ m. m >>= λ ks. some (q ∷ ks)) all
                ∙ ap some whole)
          ]
        ]

  -- Where the sequential recursion returns, with some fuel: in any state that the tasks can reach,
  -- the root is done, with a result that the recursion returns, or some task can make a step.
  pub some-TaskStep :
      (root : T) (t : Task T R) (f : ℕ) (r : R)
      → array_serial info body f root ≡ some r
      → TaskReach partitioner info body root t
      → (t ≡ done r) ⊎ ((u : Task T R) × TaskStep partitioner info body t u)
  unfolding Denotes DenotesAll
  some-TaskStep root t f r e reached =
      Denotes-TaskStep t r (TaskReach-Denotes info body partitioner root t r (f, e) reached)
