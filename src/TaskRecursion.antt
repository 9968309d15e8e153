-- ===== src/TaskRecursion.antt =====
-- include/dparallel_recursion/parallel_recursion.h: the skeleton over tasks. TBB allocates tasks, runs those
-- that are spawned in any order, on any thread, and lets a task wait for its children; here a step is
-- `execute` of one task up to its spawn, or what follows once its children are done.
pub mod Fuel
pub mod Sound
pub mod Progress
pub mod Ends
use dparallel_recursion.Common.{
  ℕ, zero, suc, ◌+◌, ◌≡◌, Bool, true, false, Option, none, some, ◌>>=◌, ltb, if◌then◌else◌, List,
  [], ◌∷◌,
}
use dparallel_recursion.ArrayRecursion.{ArrayInfo, ArrayBody, results_from, array_serial}

-- simple_partitioner, auto_partitioner with the parLevel_ of the problem, and custom_partitioner.
pub data Partitioner {ℓ} (T : Type ℓ) : Type ℓ where
  simple : Partitioner T
  automatic : ℕ → Partitioner T
  custom : (T → Bool) → Partitioner T

unfoldable pub partitioner_do_parallel {ℓ} : {T : Type ℓ} → Partitioner T → T → ℕ → Bool
partitioner_do_parallel simple d level = true
partitioner_do_parallel (automatic par_level) d level = ltb level par_level
partitioner_do_parallel (custom f) d level = f d

-- A task that has not begun, with its datum and level; one that waits for its children; one that is done,
-- with the result that it has stored.
mutual
  pub data Task {ℓ κ} (T : Type ℓ) (R : Type κ) : Type (ℓ ⊔ κ) where
    spawned : T → ℕ → Task T R
    awaiting : T → Tasks T R → Task T R
    done : R → Task T R

  pub data Tasks {ℓ κ} (T : Type ℓ) (R : Type κ) : Type (ℓ ⊔ κ) where
    no_tasks : Tasks T R
    one_more : Task T R → Tasks T R → Tasks T R

module _ {ℓ κ} {T : Type ℓ} {R : Type κ} where
  -- The loop that allocates the children from `i` on, with `n` rounds left.
  unfoldable pub spawn_children : (ℕ → T) → ℕ → ℕ → ℕ → Tasks T R
  spawn_children child level zero i = no_tasks
  spawn_children child level (suc n) i =
      one_more (spawned (child i) level) (spawn_children child level n (i + 1))

  -- The array of results, once all children are done.
  unfoldable pub all_results : Tasks T R → Option (List R)
  all_results no_tasks = some []
  all_results (one_more (spawned d level) ts) = none
  all_results (one_more (awaiting d kids) ts) = none
  all_results (one_more (done r) ts) = all_results ts >>= λ rs. some (r ∷ rs)

module _ {ℓ κ} {T : Type ℓ} {R : Type κ} (partitioner : Partitioner T) (info : ArrayInfo T)
    (body : ArrayBody T R) where
  -- execute, up to where it waits. `fuel` bounds the recursion of a sequential part.
  unfoldable pub execute : ℕ → T → ℕ → Option (Task T R)
  unfolding partitioner_do_parallel spawn_children results_from
  execute fuel datum level =
      let d = body.pre datum in
      let d' = body.pre_rec d in
      let d2 = (info.num_children d').0 in
      let c = (info.num_children d').1 in
      let serial = results_from (array_serial info body fuel) (λ i. info.child i d2) c 0 >>= λ rs.
      some (done (body.post d2 rs)) in
      let parallel = some (awaiting d2 (spawn_children (λ i. info.child i d2) (level + 1) c 0)) in
      if info.is_base d
      then some (done (body.base d))
      else (if partitioner_do_parallel partitioner d2 level then parallel else serial)

  mutual
    pub data TaskStep : Task T R → Task T R → Type (ℓ ⊔ κ) where
      begin :
          (fuel : ℕ) (datum : T) (level : ℕ) (t : Task T R)
          → execute fuel datum level ≡ some t
          → TaskStep (spawned datum level) t
      child_step :
          (d : T) (ts us : Tasks T R) → TasksStep ts us → TaskStep (awaiting d ts) (awaiting d us)
      resume :
          (d : T) (ts : Tasks T R) (rs : List R)
          → all_results ts ≡ some rs
          → TaskStep (awaiting d ts) (done (body.post d rs))

    pub data TasksStep : Tasks T R → Tasks T R → Type (ℓ ⊔ κ) where
      first_step :
          (t u : Task T R) (ts : Tasks T R)
          → TaskStep t u
          → TasksStep (one_more t ts) (one_more u ts)
      later_step :
          (t : Task T R) (ts us : Tasks T R)
          → TasksStep ts us
          → TasksStep (one_more t ts) (one_more t us)

  -- The states of the task that `run` spawns for the root and waits for.
  pub data TaskReach (root : T) : Task T R → Type (ℓ ⊔ κ) where
    at_root : TaskReach root (spawned root 0)
    task_then : {t u : Task T R} → TaskReach root t → TaskStep t u → TaskReach root u
