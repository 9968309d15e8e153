-- ===== src/TaskRecursion/Sound.antt =====
-- include/dparallel_recursion/parallel_recursion.h: what the tasks compute, in any order.
use dparallel_recursion.Common.{
  ℕ, zero, suc, ◌+◌, ◌≡◌, sym, ap, ap₂, subst, ◌∙◌, some, >>=-eq-some, some_injective, List, [],
  ◌∷◌, Bool-cases, inl, inr,
}
use dparallel_recursion.ArrayRecursion.{
  ArrayInfo, ArrayBody, results_from, array_node, array_serial,
}
use dparallel_recursion.TaskRecursion.{
  Partitioner, partitioner_do_parallel, Task, spawned, awaiting, done, Tasks, no_tasks, one_more,
  spawn_children, all_results, execute, TaskStep, begin, child_step, resume, TasksStep, first_step,
  later_step, TaskReach, at_root, task_then,
}
use dparallel_recursion.TaskRecursion.Fuel.{results_from_unique}

module _ {ℓ κ} {T : Type ℓ} {R : Type κ} (info : ArrayInfo T) (body : ArrayBody T R) where
  -- The result that a task is on its way to.
  unfoldable mutual
    pub Denotes : Task T R → R → Type κ
    Denotes (spawned d level) r = (f : ℕ) × (array_serial info body f d ≡ some r)
    Denotes (awaiting d ts) r = (rs : List R) × DenotesAll ts rs × (body.post d rs ≡ r)
    Denotes (done q) r = q ≡ r

    pub DenotesAll : Tasks T R → List R → Type κ
    DenotesAll no_tasks rs = [] ≡ rs
    DenotesAll (one_more t ts) rs =
        (q : R) × (qs : List R) × Denotes t q × DenotesAll ts qs × (q ∷ qs ≡ rs)

  spawn_children-DenotesAll :
      (f : ℕ) (child : ℕ → T) (level n i : ℕ) (rs : List R)
      → results_from (array_serial info body f) child n i ≡ some rs
      → DenotesAll (spawn_children child level n i) rs
  unfolding spawn_children results_from Denotes DenotesAll
  spawn_children-DenotesAll f child level zero i rs e = some_injective [] rs e
  spawn_children-DenotesAll f child level (suc n) i rs e =
      let (r, first, e') = >>=-eq-some (array_serial info body f (child i)) _ e in
      let (qs, rest, e2) =
        >>=-eq-some (results_from (array_serial info body f) child n (i + 1)) _ e' in
      (
        r,
        qs,
        (f, first),
        spawn_children-DenotesAll f child level n (i + 1) qs rest,
        some_injective (r ∷ qs) rs e2,
      )

  all_results_unique :
      (ts : Tasks T R) (rs qs : List R) → all_results ts ≡ some rs → DenotesAll ts qs → rs ≡ qs
  unfolding all_results Denotes DenotesAll
  all_results_unique no_tasks rs qs e v = sym (some_injective [] rs e) ∙ v
  all_results_unique (one_more (spawned d level) ts) rs qs e v = cc
  all_results_unique (one_more (awaiting d kids) ts) rs qs e v = cc
  all_results_unique (one_more (done r) ts) rs qs e v =
      let (rs', rest, e') = >>=-eq-some (all_results ts) _ e in
      let (q, qs', same, vs, whole) = v in
      sym (some_injective (r ∷ rs') rs e')
      ∙ ap₂ (λ x xs. x ∷ xs) same (all_results_unique ts rs' qs' rest vs)
      ∙ whole

  execute-Denotes :
      (partitioner : Partitioner T) (fuel level : ℕ) (d : T) (t : Task T R) (r : R)
      → execute partitioner info body fuel d level ≡ some t
      → Denotes (spawned d level) r
      → Denotes t r
  unfolding execute array_serial array_node Denotes
  execute-Denotes partitioner fuel level d t r e (zero, v) = cc
  execute-Denotes partitioner fuel level d t r e (suc f, v) =
      elim (Bool-cases (info.is_base (body.pre d))) [
        | inl base ↦
            subst (λ u. Denotes u r)
              (some_injective (done (body.base (body.pre d))) t (rw base at e))
              (some_injective (body.base (body.pre d)) r (rw base at v))
        | inr node ↦
            let d' = info.num_children (body.pre_rec (body.pre d)) in
            let (rs, all, last) =
              >>=-eq-some (results_from (array_serial info body f) (λ i. info.child i d'.0) d'.1 0)
                _ (rw node at v) in
            elim (Bool-cases (partitioner_do_parallel partitioner d'.0 level)) [
              | inl parallel ↦
                  let kids = spawn_children (λ i. info.child i d'.0) (level + 1) d'.1 0 in
                  subst (λ u. Denotes u r)
                    (some_injective (awaiting d'.0 kids) t (rw (node, parallel) at e))
                    (
                      rs,
                      spawn_children-DenotesAll f (λ i. info.child i d'.0) (level + 1) d'.1 0 rs
                          all,
                      some_injective (body.post d'.0 rs) r last,
                    )
              | inr serial ↦
                  let (qs, all', last') =
                    >>=-eq-some
                      (results_from (array_serial info body fuel) (λ i. info.child i d'.0) d'.1 0) _
                      (rw (node, serial) at e) in
                  let same =
                    results_from_unique info body f fuel (λ i. info.child i d'.0) d'.1 0 rs qs all
                      all' in
                  subst (λ u. Denotes u r) (some_injective (done (body.post d'.0 qs)) t last')
                    (ap (body.post d'.0) (sym same) ∙ some_injective (body.post d'.0 rs) r last)
            ]
      ]

  module _ (partitioner : Partitioner T) where
    mutual
      unfolding Denotes DenotesAll

      TaskStep-Denotes :
          (t u : Task T R) (r : R) → TaskStep partitioner info body t u → Denotes t r → Denotes u r
      TaskStep-Denotes t u r (begin fuel d level u' e) v =
          execute-Denotes partitioner fuel level d u r e v
      TaskStep-Denotes t u r (child_step d ts us step) v =
          let (rs, vs, last) = v in (rs, TasksStep-DenotesAll ts us rs step vs, last)
      TaskStep-Denotes t u r (resume d ts rs e) v =
          let (qs, vs, last) = v in ap (body.post d) (all_results_unique ts rs qs e vs) ∙ last

      TasksStep-DenotesAll :
          (ts us : Tasks T R) (rs : List R)
          → TasksStep partitioner info body ts us
          → DenotesAll ts rs
          → DenotesAll us rs
      TasksStep-DenotesAll ts us rs (first_step t u ks step) v =
          let (q, qs, first, rest, whole) = v in
          (q, qs, TaskStep-Denotes t u q step first, rest, whole)
      TasksStep-DenotesAll ts us rs (later_step t ks ls step) v =
          let (q, qs, first, rest, whole) = v in
          (q, qs, first, TasksStep-DenotesAll ks ls qs step rest, whole)

    pub TaskReach-Denotes :
        (root : T) (t : Task T R) (r : R)
        → Denotes (spawned root 0) r
        → TaskReach partitioner info body root t
        → Denotes t r
    TaskReach-Denotes root t r v at_root = v
    TaskReach-Denotes root t r v (task_then {t = s} reached step) =
        TaskStep-Denotes s t r step (TaskReach-Denotes root s r v reached)

    -- Where the sequential recursion returns, with some fuel: whatever the partitioner, and whatever
    -- the order of the steps of the tasks, once the root is done it has stored the result of the
    -- sequential recursion.
    pub done-array_serial :
        (root : T) (f : ℕ) (r q : R)
        → array_serial info body f root ≡ some r
        → TaskReach partitioner info body root (done q)
        → q ≡ r
    unfolding Denotes DenotesAll
    done-array_serial root f r q e reached = TaskReach-Denotes root (done q) r (f, e) reached
