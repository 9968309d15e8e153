-- ===== src/DistributedRun.antt =====
-- include/dparallel_recursion/dparallel_recursion.h: a run with ReplicatedInput off and one message for each
-- result. Every process computes its block of the last level; process 0 receives the results of the
-- others in any order, each at the place that its tag tells, and reduces them. MPI delivers each
-- message that was sent once.
pub mod Gather
pub mod Result
pub mod Local
pub mod Whole
use dparallel_recursion.Common.{
  ℕ, zero, suc, ◌+◌, ◌-◌, ◌≡◌, Option, none, some, ◌>>=◌, List, [], ◌∷◌, ◌++◌, update, length, min,
  ltb, leb, if◌then◌else◌, ◌/◌,
}
use dparallel_recursion.Arity.{levels_for_ntasks}
use dparallel_recursion.ArrayRecursion.{ArrayInfo, ArrayBody, array_serial}
use dparallel_recursion.Distribution.{Distribution, accumulate, first_global_elem}
use dparallel_recursion.DistributedTree.{Tree, reduction}
use dparallel_recursion.DistributedTree.Repeatable.{results_of}

module _ {ℓ} {A : Type ℓ} where
  -- `n` elements from place `b` on
  unfoldable pub slice : ℕ → ℕ → List A → List A
  slice b n [] = []
  slice zero zero (x ∷ l) = []
  slice zero (suc n) (x ∷ l) = x ∷ slice zero n l
  slice (suc b) n (x ∷ l) = slice b n l

  -- Those elements, where all of them are there.
  unfoldable pub elements : ℕ → ℕ → List A → Option (List A)
  unfolding slice
  elements b n l = if leb (b + n) (length l) then some (slice b n l) else none

  -- The places of the elements, from `b` on: the tags base + i of send_results.
  unfoldable pub tagged : ℕ → List A → List (ℕ × A)
  tagged b [] = []
  tagged b (x ∷ l) = (b, x) ∷ tagged (b + 1) l

  -- recv at local_results[tag]; a place with no result yet is `none`.
  unfoldable pub receive : (ℕ → Option A) → List (ℕ × A) → ℕ → Option A
  receive s [] = s
  receive s (m ∷ ms) = receive (update s m.0 (some m.1)) ms

  -- The results in `n` places from `i` on, where all are there.
  unfoldable pub collect : (ℕ → Option A) → ℕ → ℕ → Option (List A)
  collect s i zero = some []
  collect s i (suc n) = s i >>= λ x. collect s (i + 1) n >>= λ l. some (x ∷ l)

-- run(): how many problems of its block a task computes.
unfoldable pub run_step : ℕ → ℕ → ℕ
run_step ntasks nlocal_elems = if ltb nlocal_elems ntasks then 1 else nlocal_elems / ntasks

-- run(): the level down to which each of them makes tasks of its own, for an arity.
unfoldable pub run_level : ℕ → ℕ → ℕ → ℕ → Option ℕ
unfolding levels_for_ntasks
run_level fuel num_children ntasks nlocal_elems =
    if ltb nlocal_elems ntasks
    then levels_for_ntasks fuel num_children ((ntasks + (nlocal_elems - 1)) / nlocal_elems)
    else some 0

module _ {ℓ κ} {T : Type ℓ} {R : Type κ} (rec : T → Option R) where
  -- ParallelComputeHelper at `i`: the problems from `i` up to std::min(i + step, nLocalElems()). A
  -- problem past the end of the block has no result.
  unfoldable pub compute : List T → ℕ → ℕ → Option (List R)
  unfolding elements
  compute roots step i = elements i (min (i + step) (length roots) - i) roots >>= results_of rec

  -- What the tasks of tbb::parallel_for from `i` on write to local_results, at most `fuel` tasks.
  unfoldable pub run_writes : ℕ → List T → ℕ → ℕ → Option (List (ℕ × R))
  unfolding compute tagged
  run_writes zero roots step i = none
  run_writes (suc fuel) roots step i =
      let rest = run_writes fuel roots step (i + step) in
      let here = compute roots step i >>= λ rs. rest >>= λ ms. some (tagged i rs ++ ms) in
      if ltb i (length roots) then here else some []

-- The messages `sent` are received one by one, each time any of those left.
pub data Arrives {ℓ} {M : Type ℓ} : List M → List M → Type ℓ where
  all_received : Arrives [] []
  next_message :
      (sent before after : List M) (m : M) (rest : List M)
      → sent ≡ before ++ (m ∷ after)
      → Arrives (before ++ after) rest
      → Arrives sent (m ∷ rest)

module _ {ℓ κ} {T : Type ℓ} {R : Type κ} (info : ArrayInfo T) (body : ArrayBody T R) where
  -- run(), in the process `rank`: the results of its block.
  unfoldable pub local_results : ℕ → Distribution → List T → ℕ → Option (List R)
  unfolding slice
  local_results fuel d last rank =
      results_of (array_serial info body fuel)
        (slice (first_global_elem d rank) (d.elems_per_rank rank) last)

  -- send_results() of the `n` processes from `rank` on.
  unfoldable pub send_results : ℕ → Distribution → List T → ℕ → ℕ → Option (List (ℕ × R))
  unfolding tagged
  send_results fuel d last rank zero = some []
  send_results fuel d last rank (suc n) = local_results fuel d last rank >>= λ rs.
      send_results fuel d last (rank + 1) n >>= λ ms.
      some (tagged (first_global_elem d rank) rs ++ ms)

  -- recv_results() in process 0 with its own results in place, and reduction().
  unfoldable pub reduce : Distribution → Tree T → List R → List (ℕ × R) → Option R
  unfolding receive collect
  reduce d t own arrived =
      collect (receive (receive (λ k. none) (tagged 0 own)) arrived) 0 d.nglobal_elems >>= λ rs.
      reduction info body t rs
